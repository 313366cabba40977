-- ===== src/Api/Applications.antt =====
-- server/src/applications/applications.controller.ts, behind the guard for the scope `apps:manage`.
use study_room_sdk.Base.{ℕ, Option}
use study_room_sdk.Domain.{Text, Application, ApplicationChange, Page}
use study_room_sdk.Service.Monad.{Outcome}
use study_room_sdk.Page.{Seek}
use study_room_sdk.Claims.{AdminIdentity}
use study_room_sdk.Applications
use study_room_sdk.Applications.{Applications, Policy}

module _ (policy : Policy) (id_of : Text → ℕ) where
  -- `create`
  unfoldable pub post_application :
      Application → AdminIdentity → Applications → Outcome Application × Applications
  post_application body admin s = Applications.create policy (id_of admin.subject) body s

  -- `update`
  unfoldable pub patch_application :
      ℕ → ApplicationChange → AdminIdentity → Applications → Outcome Application × Applications
  patch_application app body admin s = Applications.update policy app (id_of admin.subject) body s

-- `list`
unfoldable pub get_applications : Seek → Option ℕ → ℕ → Applications → Page Application
get_applications seek cursor limit s = Applications.list seek cursor limit s

-- `get`
unfoldable pub get_application : ℕ → ℕ → Applications → Option Application × Applications
get_application now app s = Applications.get now app s
