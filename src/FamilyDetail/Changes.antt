-- ===== src/FamilyDetail/Changes.antt =====
-- components/EntityTypesWidgetDetailCore.tsx: renaming and deleting an entity type.
use april_profile_kilo.FamilyDetail.{
  FamilyLoad, FamilyProps, FamilyState, act, begin_family_load, family_answered, given,
  show_mutation_error,
}
use april_profile_kilo.Runtime.{Runtime}
use april_profile_kilo.Transport.Promise.{Outcome, fulfilled, rejected}
use april_profile_kilo.Base.{List, Option, Text, codes, false, none, some, suc, trim}
use april_profile_kilo.Providers.EntityTypes.{FamilyDetail, PatchFamilyInput, Revision}
use april_profile_kilo.Telemetry.{family_deleted, family_patched}
use april_profile_kilo.FamilyDetail.Drafts.{idle}

-- `handlePatchFamily` up to its `await`, with what it sends.
unfoldable pub begin_patch : FamilyState → FamilyState × Option PatchFamilyInput
unfolding trim
begin_patch s = elim (given s.family_id) [
  | none ↦ (s, none)
  | some id ↦ (
    record s { busy = some (codes "patch") },
    some (record { namespace = trim s.patch_namespace; code = trim s.patch_code }),
  )
]

-- After the answer, up to the host's reload of the catalogue.
unfoldable pub patch_answered : FamilyProps → Outcome FamilyDetail → FamilyState → FamilyState
unfolding show_mutation_error
patch_answered p (fulfilled d) s = record s {
  patch_opened = false;
  catalog_reloads = suc s.catalog_reloads;
}
patch_answered p (rejected e) s = idle (show_mutation_error p e s)

-- After the catalogue, up to the load of the family that the handler was made for.
unfoldable pub patch_listed : FamilyProps → Text → Outcome (Unit {0}) → FamilyState → FamilyState
unfolding begin_family_load show_mutation_error
patch_listed p id (fulfilled _) s = begin_family_load p id s
patch_listed p id (rejected e) s = idle (show_mutation_error p e s)

-- After that load has been answered, whichever way.
unfoldable pub patch_finished :
    Runtime
    → FamilyProps
    → FamilyLoad
    → Outcome (FamilyDetail × List Revision)
    → FamilyState
    → FamilyState
unfolding family_answered
patch_finished rt p l o s = idle (act (family_patched l.family) (family_answered rt p l o s))

-- `handleDeleteFamily` up to its `await`, after the answer, and after the host has been told.
unfoldable pub begin_delete : FamilyState → FamilyState
begin_delete s = elim (given s.family_id) [
  | none ↦ s
  | some id ↦ record s { busy = some (codes "delete") }
]

unfoldable pub delete_answered : FamilyProps → Outcome (Unit {0}) → FamilyState → FamilyState
unfolding show_mutation_error
delete_answered p (fulfilled _) s = record s { delete_opened = false }
delete_answered p (rejected e) s = idle (show_mutation_error p e s)

unfoldable pub delete_finished : FamilyProps → Text → Outcome (Unit {0}) → FamilyState → FamilyState
unfolding show_mutation_error
delete_finished p id (fulfilled _) s = idle (act (family_deleted id) s)
delete_finished p id (rejected e) s = idle (show_mutation_error p e s)
