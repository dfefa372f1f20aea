-- ===== src/FamilyDetail/Batches.antt =====
-- components/EntityTypesWidgetDetailCore.tsx: the upgrade of many profiles by one call.
-- What a batch call asks for: the selected profiles, or those behind the latest revision.
use april_profile_kilo.Transport.Promise.{Outcome, fulfilled, rejected}
use april_profile_kilo.FamilyDetail.{
  FamilyProps, FamilyState, act, given, revision_id, show_upgrade_error, tell,
}
use april_profile_kilo.Base.{
  Bool, Option, Text, [], codes, false, if◌then◌else◌, is_nil, length, none, not, some, true, ◌∷◌,
}
use april_profile_kilo.Providers.Upgrades.{BatchUpgradeInput, BatchUpgradeResult}
use april_profile_kilo.Telemetry.{
  Meta, batch_upgrade_completed, batch_upgrade_done, batch_upgrade_submitted,
}
use april_profile_kilo.FamilyDetail.Upgrades.{begin_upgrade_page, target_of}
use april_profile_kilo.Value.{number, string}
use april_profile_kilo.FamilyDetail.Drafts.{idle}

pub data Batch : Type 0 where
  selected_only behind_latest : Batch

abbrev pub batch_meta : Batch → FamilyState → Meta
batch_meta selected_only s =
    (codes "mode", string (codes "selected"))
    ∷ (codes "count", number (length s.selected_entity_ids))
    ∷ []
batch_meta behind_latest s = (codes "mode", string (codes "behind_latest")) ∷ []

abbrev pub batch_busy : Batch → Text
batch_busy selected_only = codes "batch"
batch_busy behind_latest = codes "batch-behind"

unfoldable pub batch_input : Batch → Text → FamilyState → BatchUpgradeInput
unfolding target_of
batch_input selected_only family s = record {
  entity_type_id = family;
  target_revision_id = revision_id (target_of s);
  target_revision_no = none;
  entity_ids = some s.selected_entity_ids;
  only_behind_latest = none;
  limit = none;
  idempotency_key = none;
}
batch_input behind_latest family s = record {
  entity_type_id = family;
  target_revision_id = revision_id (target_of s);
  target_revision_no = none;
  entity_ids = none;
  only_behind_latest = some true;
  limit = some 500;
  idempotency_key = none;
}

abbrev pub has_work : Batch → FamilyState → Bool
has_work selected_only s = not (is_nil s.selected_entity_ids)
has_work behind_latest s = true

-- `handleBatchUpgradeSelected` and `handleBatchUpgradeBehind` up to their `await`, with the call.
unfoldable pub begin_batch :
    FamilyProps → Batch → FamilyState → FamilyState × Option BatchUpgradeInput
unfolding batch_input
begin_batch p b s = elim (given s.family_id) [
  | none ↦ (s, none)
  | some id ↦
      if has_work b s
      then (
        tell p batch_upgrade_submitted (batch_meta b s) (record s { busy = some (batch_busy b) }),
        some (batch_input b id s),
      )
      else (s, none)
]

abbrev pub done_meta : Batch → BatchUpgradeResult → Meta
done_meta selected_only r =
    (codes "succeeded", number r.succeeded) ∷ (codes "failed", number r.failed) ∷ []
done_meta behind_latest r =
    (codes "succeeded", number r.succeeded)
    ∷ (codes "failed", number r.failed)
    ∷ (codes "mode", string (codes "behind_latest"))
    ∷ []

abbrev pub after_batch : Batch → FamilyState → FamilyState
after_batch selected_only s = record s { selected_entity_ids = [] }
after_batch behind_latest s = s

-- After their `await`.
unfoldable pub batch_answered :
    FamilyProps → Batch → Text → Outcome BatchUpgradeResult → FamilyState → FamilyState
unfolding begin_upgrade_page show_upgrade_error
batch_answered p b family (fulfilled r) s =
    let told =
      tell p batch_upgrade_completed (done_meta b r)
        (act (batch_upgrade_done family r.succeeded r.failed r.processed) s) in
    idle (begin_upgrade_page false (after_batch b told))
batch_answered p b family (rejected e) s = idle (show_upgrade_error p e s)
