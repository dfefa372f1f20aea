-- ===== src/ProfileDetail/Answers.antt =====
-- components/ProfilesWidgetProfileDetailCore.tsx: answers that come late.
use april_profile_kilo.Runtime.{Runtime}
