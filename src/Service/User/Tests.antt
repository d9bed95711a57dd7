-- ===== src/Service/User/Tests.antt =====
-- The deletion of a user of the small bank.
use insider_banking_project.Base.{◌≡◌, refl, String, true}
use insider_banking_project.Base.Dict.{lookup, insert}
use insider_banking_project.Domain.Error.{Error}
use insider_banking_project.Repository.World.{World, ok, err}
use insider_banking_project.Repository.Users.{get_user_by_id, delete_user}
use insider_banking_project.Repository.Cache.{invalidate_user_cache}
use insider_banking_project.Repository.Journal.{audit_log}
use insider_banking_project.Auth.Tokens.{JwtManager, Claims, validate_access_token}
use insider_banking_project.Service.Auth.{validate}
use insider_banking_project.Service.Tests.{calm, world}
use insider_banking_project.Service.User.{delete, delete_finish}
use insider_banking_project.Service.User.Deletion.{IsDeleted, delete_locks_out}

deletes : (delete calm true 2 world).0 ≡ ok tt
unfolding delete delete_finish get_user_by_id delete_user lookup insert invalidate_user_cache
    audit_log
deletes = refl

delete_locks_out_example :
    IsDeleted 2 world (delete calm true 2 world).1
    × ((v : World)
        → lookup 2 v.db.users ≡ lookup 2 (delete calm true 2 world).1.db.users
        → ((x : Error) × ((get_user_by_id calm 2 v).0 ≡ err x))
          × ((m : JwtManager) (token : String) (c : Claims)
              → validate_access_token m (calm.now v.tick) token ≡ ok c
              → c.user_id ≡ 2
              → (x : Error) × ((validate calm m token v).0 ≡ err x)))
delete_locks_out_example = delete_locks_out calm true 2 world deletes
