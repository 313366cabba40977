-- ===== src/Departures.antt =====
-- Leaving a room from end to end: the routes of server/src/rooms/rooms.controller.ts with which a
-- membership ends, and what an instance does with the message that they send on the control channel.
use study_room_sdk.Base.{
  ℕ, ◌≡◌, ap, refl, true, false, List, [], ◌∷◌, ◌++◌, arith, any, Bool-cases, inl, inr,
  any-delete_where,
}
use study_room_sdk.Domain.{Db, Ambient, Identity, RoomMembership, Room, AuditLog}
use study_room_sdk.Domain.World.{World}
use study_room_sdk.Domain.Wire.{Emission, evict}
use study_room_sdk.Service.Monad.{done, Action, write}
use study_room_sdk.Service.Keeps.{Keeps, then-Keeps, plain-Keeps}
use study_room_sdk.Service.Ensures.{
  Ensures, bind-Ensures, then-Ensures, bind-Ensures_kept, then-Ensures_kept, transaction-Ensures,
  plain-Ensures, write-Ensures, write-Keeps,
}
use study_room_sdk.Database.{
  member_is, delete_membership, update_room, next_version, insert_audit, commit,
  has_exactly_one_owner, room_transaction,
}
use study_room_sdk.Realtime.{emit, publish_user, publish_room, evict_user}
use study_room_sdk.Rooms.Defs.{membership_in}
use study_room_sdk.Rooms.Methods.{removal, departure, remove_member, leave}
use study_room_sdk.Api.Rooms.{delete_member, delete_me}
use study_room_sdk.Rooms.Snapshot.{remove_user-Keeps, updated_room-Keeps}
use study_room_sdk.Gateway
use study_room_sdk.Gateway.{Instance}
use study_room_sdk.Gateway.SocketIo.{Adapter}
use study_room_sdk.Gateway.Eviction.{all_but}
use study_room_sdk.Gateway.History.{History, OnlyTo, evicted_stays_out}

-- The ways in which a user stops being a member of a room that stays.
pub data Exit : Type 0 where
  removed : ℕ → Exit
  left : Exit

-- Who goes, when this identity calls.
abbrev pub who_goes : Exit → Identity → ℕ
who_goes (removed user) identity = user
who_goes left identity = identity.user_id

-- The route that is called
unfoldable pub depart : Ambient → (World → World) → ℕ → Identity → Exit → Action (Unit {0})
depart ambient others room identity (removed user) = delete_member ambient others room user identity
depart ambient others room identity left = delete_me ambient others room identity

abbrev pub NotIn : ℕ → ℕ → Db → Type 0
NotIn room user d = any (member_is room user) d.memberships ≡ false

delete_membership-NotIn :
    (room user : ℕ) → Ensures (λ w. NotIn room user w.db) (write (delete_membership room user))
unfolding delete_membership
delete_membership-NotIn room user =
    write-Ensures λ d e a h. ground (arith, any-delete_where (member_is room user) d.memberships)

room-NotIn :
    (room user : ℕ) (f : Room → Room)
    → Keeps (λ w. NotIn room user w.db) (write (update_room room f))
room-NotIn room user f = write-Keeps λ d e a h k. unfold update_room in ground arith

audit-NotIn :
    (room user : ℕ) (a : AuditLog) → Keeps (λ w. NotIn room user w.db) (write (insert_audit a))
audit-NotIn room user a = write-Keeps λ d e u h k. unfold insert_audit in ground arith

commit-Keeps : {A : Type 0} (P : World → Type 0) (room : ℕ) (a : A) → Keeps P (commit room a)
commit-Keeps P room a = plain-Keeps λ w h. elim (Bool-cases (has_exactly_one_owner room w.db)) [
  | inl e ↦ unfold commit in rw e h
  | inr e ↦ unfold commit in rw e h
]

removal-NotIn :
    (room user : ℕ) (identity : Identity)
    → Ensures (λ w. NotIn room user w.db) (removal room user identity)
unfolding removal room_transaction
removal-NotIn room user identity = transaction-Ensures (
    bind-Ensures_kept
      (then-Ensures_kept (delete_membership-NotIn room user)
        (then-Keeps (room-NotIn room user next_version) (audit-NotIn room user _)))
      (commit-Keeps _ room))

departure-NotIn :
    (room : ℕ) (identity : Identity)
    → Ensures (λ w. NotIn room identity.user_id w.db) (departure room identity)
unfolding departure room_transaction
departure-NotIn room identity = transaction-Ensures (
    bind-Ensures_kept
      (then-Ensures_kept (delete_membership-NotIn room identity.user_id)
        (room-NotIn room identity.user_id next_version))
      (commit-Keeps _ room))

remove_member-NotIn :
    (ambient : Ambient) (others : World → World) (room user : ℕ) (identity : Identity)
    → Ensures (λ w. NotIn room user w.db) (remove_member ambient others room user identity)
unfolding remove_member
remove_member-NotIn ambient others room user identity = then-Ensures _ (
    bind-Ensures _ λ found. bind-Ensures _ λ target. then-Ensures _ (
      then-Ensures _ (
        then-Ensures_kept (removal-NotIn room user identity) (
          then-Keeps (remove_user-Keeps _ (λ w r h. h) _ _ _ _)
            (updated_room-Keeps _ (λ w r h. h) _ _ _)))))

leave-NotIn :
    (ambient : Ambient) (others : World → World) (room : ℕ) (identity : Identity)
    → Ensures (λ w. NotIn room identity.user_id w.db) (leave ambient others room identity)
unfolding leave
leave-NotIn ambient others room identity = bind-Ensures _ λ membership. then-Ensures _ (
    then-Ensures _ (
      then-Ensures_kept (departure-NotIn room identity) (
        then-Keeps (remove_user-Keeps _ (λ w r h. h) _ _ _ _)
          (updated_room-Keeps _ (λ w r h. h) _ _ _))))

-- The emission is among those that the call has handed on.
abbrev pub Sent : Emission → World → Type 0
Sent e w =
    (later : List Emission) × (earlier : List Emission) × (w.emissions ≡ later ++ e ∷ earlier)

emit-Sent : (e : Emission) → Ensures (Sent e) (emit e)
unfolding emit
emit-Sent e = plain-Ensures λ w v a h. ([], w.emissions, cc)

emit-Keeps : (e f : Emission) → Keeps (Sent e) (emit f)
unfolding emit
emit-Keeps e f = plain-Keeps λ w h. (f ∷ h.0, h.1, ap (λ l. f ∷ l) h.2)

emit-db : (P : Db → Type 0) (f : Emission) → Keeps (λ w. P w.db) (emit f)
unfolding emit
emit-db P f = plain-Keeps λ w h. h

-- After the call the user has no membership of the room.
depart-NotIn :
    (ambient : Ambient) (others : World → World) (room : ℕ) (identity : Identity) (exit : Exit)
    → Ensures
        (λ w. NotIn room (who_goes exit identity) w.db)
        (depart ambient others room identity exit)
unfolding depart delete_member delete_me publish_user publish_room evict_user
depart-NotIn ambient others room identity (removed user) =
    bind-Ensures_kept (remove_member-NotIn ambient others room user identity) λ dto.
      then-Keeps (emit-db (NotIn room user) _)
        (then-Keeps (emit-db (NotIn room user) _) (emit-db (NotIn room user) _))
depart-NotIn ambient others room identity left =
    bind-Ensures_kept (leave-NotIn ambient others room identity) λ dto.
      then-Keeps (emit-db (NotIn room identity.user_id) _) (
        then-Keeps (emit-db (NotIn room identity.user_id) _)
          (emit-db (NotIn room identity.user_id) _))

-- The call has ordered the user's sockets out of the room.
depart-Sent :
    (ambient : Ambient) (others : World → World) (room : ℕ) (identity : Identity) (exit : Exit)
    → Ensures
        (Sent (evict identity.app_id room (who_goes exit identity)))
        (depart ambient others room identity exit)
unfolding depart delete_member delete_me publish_user publish_room evict_user
depart-Sent ambient others room identity (removed user) =
    bind-Ensures _ λ dto. then-Ensures _ (then-Ensures_kept (emit-Sent _) (emit-Keeps _ _))
depart-Sent ambient others room identity left =
    bind-Ensures _
      λ dto. then-Ensures_kept (emit-Sent _) (then-Keeps (emit-Keeps _ _) (emit-Keeps _ _))

NotIn-any :
    (app room user : ℕ) (d : Db) (ms : List RoomMembership)
    → any (member_is room user) ms ≡ false
    → any (membership_in app room user d) ms ≡ false
unfolding any
NotIn-any app room user d [] h = refl
NotIn-any app room user d (m ∷ ms) h = ground (arith, NotIn-any app room user d ms)

module _ (adapter : Adapter) (who : ℕ → Identity) where
  -- A user whom the owner has removed, or who has left, is cut off: when the call has succeeded, the
  -- user has no membership of the room, and the order that the user's sockets leave it has been sent;
  -- once an instance, of any history that starts with no connected socket, hears the order with the
  -- tables as the call left them and while no subscription is under way, no connected socket of the
  -- user on it is in the room's topic, whatever the instance does then, as long as the tables do not
  -- have the user as a member again. Of a subscription that checked the membership before and joins
  -- after the order was heard, nothing is said.
  pub depart_cuts_off :
      (ambient : Ambient) (others : World → World) (room : ℕ) (identity : Identity) (exit : Exit)
      (w v : World) (now : ℕ) {s t u : Instance adapter}
      → depart ambient others room identity exit w ≡ (done tt, v)
      → History adapter who (λ i r. true) s t
      → s.sockets ≡ []
      → t.world.db ≡ v.db
      → History adapter who
          (all_but identity.app_id room (who_goes exit identity))
          (Gateway.handle_room_eviction adapter now identity.app_id room (who_goes exit identity) t)
          u
      → NotIn room (who_goes exit identity) v.db
        × Sent (evict identity.app_id room (who_goes exit identity)) v
        × OnlyTo adapter (all_but identity.app_id room (who_goes exit identity)) u
  depart_cuts_off ambient others room identity exit w v now {s} {t} {u} e before none_connected same
        after =
      let user = who_goes exit identity in
      let gone = (depart-NotIn ambient others room identity exit).ensures w v tt e in
      (
        gone,
        (depart-Sent ambient others room identity exit).ensures w v tt e,
        evicted_stays_out adapter who now identity.app_id room user before none_connected
            (rw same (NotIn-any identity.app_id room user v.db v.db.memberships gone)) after,
      )
