-- ===== src/Demo/Drafts.antt =====
-- frontend/src/mocks/handlers.ts: the version that guards the draft of an entity type.
use mathlib.Core.Path.{◌≡◌, refl}
use native.Mathlib.Omega.{arith}
use april_profile_kilo.Demo.{Store, json, problem}
use april_profile_kilo.Base.{
  Text, codes, Bool-cases, get, inl, inr, ◌==◌, false, some, ◌+◌, Option, get-set, none,
  text_eq_refl,
}
use april_profile_kilo.Providers.EntityTypes.{SaveDraftInput}
use april_profile_kilo.Providers.{EntityTypeRow}
use april_profile_kilo.Demo.Families.{put_draft, put_row}

stale_refused :
    (id : Text) (body : SaveDraftInput) (s : Store) (row : EntityTypeRow)
    → get id s.families ≡ some row
    → (body.if_draft_schema_version == row.draft_schema_version) ≡ false
    → put_draft id body s ≡ (problem 409 (codes "draft version conflict"), s)
unfolding put_draft put_row
stale_refused id body s row found stale = rw (found, put_row, stale) refl

-- What an accepted save was and what it leaves behind.
put_row_accepted :
    (id : Text) (body : SaveDraftInput) (s : Store) (o : Option EntityTypeRow)
    (next : EntityTypeRow)
    → (put_row id body s o).0 ≡ json 200 next
    → (get id (put_row id body s o).1.families ≡ some next)
      × (next.draft_schema_version ≡ body.if_draft_schema_version + 1)
unfolding put_row
put_row_accepted id body s none next ok = ground arith
put_row_accepted id body s (some old) next ok =
    elim (Bool-cases (body.if_draft_schema_version == old.draft_schema_version)) [
      | inl fits ↦
          let same : json 200 (record old {
            draft_schema = body.draft_schema;
            draft_schema_version = old.draft_schema_version + 1;
          })
              ≡ json 200 next =
            ground arith in
          let row : record old {
            draft_schema = body.draft_schema;
            draft_schema_version = old.draft_schema_version + 1;
          }
              ≡ next =
            ground arith in
          (ground (arith, text_eq_refl id, get-set id id next s.families), ground arith)
      | inr differs ↦ ground arith
    ]

-- When a save of a draft was accepted, a second save that expects the same version of the draft is
-- refused with status 409 and changes nothing.
pub second_save_refused :
    (id : Text) (ours theirs : SaveDraftInput) (s : Store) (row : EntityTypeRow)
    → (put_draft id ours s).0 ≡ json 200 row
    → theirs.if_draft_schema_version ≡ ours.if_draft_schema_version
    → put_draft id theirs (put_draft id ours s).1
      ≡ (problem 409 (codes "draft version conflict"), (put_draft id ours s).1)
unfolding put_draft put_row
second_save_refused id ours theirs s row ok same =
    let saved = put_row_accepted id ours s (get id s.families) row ok in
    stale_refused id theirs (put_draft id ours s).1 row saved.0 (ground arith)
