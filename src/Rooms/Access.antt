-- ===== src/Rooms/Access.antt =====
-- Who may do what in a room.
use study_room_sdk.Base.{
  ℕ, ◌≡◌, refl, Bool, true, false, inl, inr, ◌&&◌, Option, some, arith, any, find?, if◌then◌else◌,
  Bool-cases, Option-cases, find?-holds, find?-any, find?-any_also, find?-none, any-of_find?,
}
use study_room_sdk.Domain.{Db, Ambient, Identity, Text, RoomMembership, is_owner}
use study_room_sdk.Domain.World.{World}
use study_room_sdk.Service.Monad.{thrown, Failure, Action, actions, resume}
use study_room_sdk.Page.{Seek}
use study_room_sdk.Idempotency.{Digest}
use study_room_sdk.Rooms.Defs.{
  membership_in, is_member, require_member, require_owner, membership_required, owner_required,
}
use study_room_sdk.Rooms.Methods.{remove_member, leave, transfer_ownership, delete}
use study_room_sdk.Rooms.Requests.{Decision, decide_join_request, list_room_join_requests}
use study_room_sdk.Sessions.{start_idempotent, list_active}
use study_room_sdk.Chat.{send_idempotent, history}

-- The identity has, in its own application, the owner's membership of a room that is not deleted.
abbrev pub owns : ℕ → Identity → Db → Bool
owns room identity d =
    any (λ m. membership_in identity.app_id room identity.user_id d m && is_owner m.role)
      d.memberships

-- What a caller without the right is told.
abbrev pub refusal : ℕ → Identity → Db → Failure
refusal room identity d = if is_member room identity d then owner_required else membership_required

-- The call ends in this failure and changes nothing.
abbrev pub Refused : {A : Type 0} → World → Failure → Action A → Type 0
Refused w e m = m w ≡ (thrown e, w)

module _ (room : ℕ) (identity : Identity) (w : World) where
  pub require_member-Refused :
      is_member room identity w.db ≡ false
      → Refused w membership_required (require_member room identity)
  unfolding actions resume require_member is_member
  require_member-Refused h =
      rw (find?-none (membership_in identity.app_id room identity.user_id w.db) w.db.memberships h)
        refl

  pub require_owner-Refused :
      owns room identity w.db ≡ false
      → Refused w (refusal room identity w.db) (require_owner room identity)
  unfolding actions resume require_owner require_member is_member
  require_owner-Refused h =
      elim (Option-cases
        (find? (membership_in identity.app_id room identity.user_id w.db) w.db.memberships)) [
          | inl e ↦
              rw
                (
                  e,
                  any-of_find? (membership_in identity.app_id room identity.user_id w.db)
                      w.db.memberships e,
                )
                refl
          | inr (m, e) ↦ elim (Bool-cases (is_owner m.role)) [
            | inl o ↦ absurd (owner_found m e o)
            | inr o ↦
                rw
                  (
                    e,
                    o,
                    find?-any (membership_in identity.app_id room identity.user_id w.db)
                        w.db.memberships e,
                  )
                  refl
          ]
        ]
    where
      owner_found :
          (m : RoomMembership)
          → find? (membership_in identity.app_id room identity.user_id w.db) w.db.memberships
            ≡ some m
          → is_owner m.role ≡ true
          → ⊥
      owner_found m e o = cc (
        h,
        find?-any_also (membership_in identity.app_id room identity.user_id w.db)
            (λ (x : RoomMembership).
              membership_in identity.app_id room identity.user_id w.db x && is_owner x.role)
            w.db.memberships e
            (ground (
              arith,
              find?-holds (membership_in identity.app_id room identity.user_id w.db)
                  w.db.memberships e,
            )),
      )

  -- A caller who is not the owner of the live room in the caller's own application can remove no
  -- member, transfer, delete, decide a request or list the requests: each call is refused, as a
  -- missing membership or as a missing ownership, and changes nothing.
  pub owner_methods_refuse :
      (ambient : Ambient) (others : World → World) (seek : Seek) (user request limit : ℕ)
      (decision : Decision) (cursor : Option ℕ)
      → owns room identity w.db ≡ false
      → let e = refusal room identity w.db in
        Refused w e (remove_member ambient others room user identity)
        × Refused w e (transfer_ownership ambient others room user identity)
        × Refused w e (delete ambient others room identity)
        × Refused w e (decide_join_request ambient others room request decision identity)
        × Refused w e (list_room_join_requests seek room identity cursor limit)
  unfolding actions resume remove_member transfer_ownership delete decide_join_request
      list_room_join_requests
  owner_methods_refuse ambient others seek user request limit decision cursor h =
      (rw r, rw r, rw r, rw r, rw r)
    where
      r : require_owner room identity w ≡ (thrown (refusal room identity w.db), w)
      r = require_owner-Refused h

  -- A caller who is no member of the live room in the caller's own application cannot leave it, send to
  -- it under a key, read its history, start a session in it under a key or list its sessions: each
  -- call is refused and changes nothing.
  pub member_methods_refuse :
      (digest : Digest) (ambient : Ambient) (others : World → World) (seek : Seek) (text key : Text)
      (limit : ℕ) (cursor : Option ℕ)
      → is_member room identity w.db ≡ false
      → let e = membership_required in
        Refused w e (leave ambient others room identity)
        × Refused w e (send_idempotent digest ambient others room identity text (some key))
        × Refused w e (history seek room identity cursor limit)
        × Refused w e (start_idempotent digest ambient others room identity (some key))
        × Refused w e (list_active seek room identity cursor limit)
  unfolding actions resume leave send_idempotent history start_idempotent list_active
  member_methods_refuse digest ambient others seek text key limit cursor h =
      (rw r, rw r, rw r, rw r, rw r)
    where
      r : require_member room identity w ≡ (thrown membership_required, w)
      r = require_member-Refused h
