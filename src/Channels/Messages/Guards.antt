-- ===== src/Channels/Messages/Guards.antt =====
-- Who may write in a channel.
use flowdeck_backend.Constants.ChannelMessages
use flowdeck_backend.Base.{
  Bool, Bool-cases, String, any, ap, arith, count, false, find-none, find_sound, inl, inr, none,
  not, refl, same_text, subst, sym, true, ℕ, ◌&&◌, ◌∙◌, ◌≡◌, ◌⊎◌,
}
use flowdeck_backend.Channels.{
  UpdateChannelInput, assert_can_post, assert_can_read, is_channel, is_member_of, is_private,
  load_channel, mark_read, update_channel,
}
use flowdeck_backend.Channels.Messages.{
  SendMessageInput, delete_message, edit_message, send_message, toggle_reaction,
}
use flowdeck_backend.Models.{Channel, Db, Message, Models, allowed_reactions}
use flowdeck_backend.Store.{
  ApiError, Exec, Result, bad_request, err, forbidden, ok, or_raise-eq-ok, reads, reads-raises,
  reads-returns, ◌>>=◌,
}

-- The request raises an error and leaves the state as it was.
abbrev pub IsRefused : {S A : Type 0} → Result A × S → S → Type 0
IsRefused r s = ((e : ApiError) × (r.0 ≡ err e)) × (r.1 ≡ s)

Result-cases : {A : Type 0} (r : Result A) → ((e : ApiError) × (r ≡ err e)) ⊎ ((a : A) × (r ≡ ok a))
Result-cases (err e) = inl (e, refl)
Result-cases (ok a) = inr (a, refl)

module _ {m : Models} where
  load_channel-find :
      (ws c : ℕ) (db : Db m) (channel : Channel)
      → load_channel ws c db ≡ ok channel
      → channel.id ≡ c
  unfolding load_channel
  load_channel-find ws c db channel e =
      let found =
        sym (m.channel.find_one_lem (is_channel ws c) db.channels) ∙ or_raise-eq-ok _ _ channel e in
      ground (arith, find_sound (is_channel ws c) _ channel found)

  assert_can_read-absent :
      (ws c u : ℕ) (unrestricted : Bool) (db : Db m)
      → count (is_member_of c u) (m.channel_member.docs db.channel_members) ≡ 0
      → ((e : ApiError) × (assert_can_read ws c u unrestricted db ≡ err e))
        ⊎ ((channel : Channel) × (assert_can_read ws c u unrestricted db ≡ ok (channel, none)))
  unfolding assert_can_read
  assert_can_read-absent ws c u unrestricted db none_there =
      elim (Result-cases (load_channel ws c db)) [
        | inl (e, h) ↦ inl (e, rw (h, assert_can_read) refl)
        | inr (channel, h) ↦
            let same = load_channel-find ws c db channel h in
            let absent : m.channel_member.find_one (is_member_of channel.id u) db.channel_members
                ≡ none =
              m.channel_member.find_one_lem (is_member_of channel.id u) db.channel_members
              ∙ find-none (is_member_of channel.id u) _ (
                  subst
                    (λ k. count (is_member_of k u) (m.channel_member.docs db.channel_members) ≡ 0)
                    (sym same) none_there) in
            elim (Bool-cases (is_private channel.visibility && true && not unrestricted)) [
              | inl t ↦ inl (
                forbidden ChannelMessages.private_access,
                rw (h, assert_can_read) (rw absent (rw t refl)),
              )
              | inr t ↦ inr (channel, rw (h, assert_can_read) (rw absent (rw t refl)))
            ]
      ]

  -- Without a membership nobody posts, whatever else holds.
  assert_can_post-raises :
      (ws c u : ℕ) (unrestricted : Bool) (db : Db m)
      → count (is_member_of c u) (m.channel_member.docs db.channel_members) ≡ 0
      → (e : ApiError) × (assert_can_post ws c u unrestricted db ≡ err e)
  unfolding assert_can_post
  assert_can_post-raises ws c u unrestricted db none_there =
      elim (assert_can_read-absent ws c u unrestricted db none_there) [
        | inl (e, h) ↦ (e, rw (h, assert_can_post) refl)
        | inr (channel, h) ↦ (forbidden ChannelMessages.not_joined, rw (h, assert_can_post) refl)
      ]

  raised :
      {A B : Type 0} (r : Db m → Result A) (f : A → Exec (Db m) B) (db : Db m)
      → (e : ApiError) × (r db ≡ err e)
      → IsRefused ((reads r >>= f) db) db
  raised r f db (e, h) =
      let out = reads-raises r f db e h in
      ((e, ap (λ (x : Result _ × Db m). x.0) out), ap (λ (x : Result _ × Db m). x.1) out)

module _ {m : Models} (ws c u now x : ℕ) (db : Db m) where
  -- Of a user who is no member of a channel, every request to send, edit or delete a message in it, to
  -- react to one, to mark it as read or to change it raises an error and changes nothing.
  pub not_member-IsRefused :
      (payload : SendMessageInput) (changes : UpdateChannelInput) (body emoji : String)
      → count (is_member_of c u) (m.channel_member.docs db.channel_members) ≡ 0
      → IsRefused (send_message x now ws c u payload db) db
        × IsRefused (edit_message now ws c x u body db) db
        × IsRefused (delete_message now ws c x u db) db
        × IsRefused (toggle_reaction ws c x u emoji db) db
        × IsRefused (mark_read now ws c u db) db
        × IsRefused (update_channel ws c u changes db) db
  unfolding send_message edit_message delete_message toggle_reaction mark_read update_channel
  not_member-IsRefused payload changes body emoji absent =
      let out = assert_can_post-raises ws c u false db absent in
      let allowed = any (λ r. same_text r emoji) allowed_reactions in
      let toggled_out : IsRefused (toggle_reaction ws c x u emoji db) db =
        elim (Bool-cases (not allowed)) [
          | inl t ↦ raised _ _ db (bad_request ChannelMessages.reaction_not_allowed, rw t refl)
          | inr t ↦
              subst (λ (r : Result Message × Db m). IsRefused r db)
                (sym (reads-returns _ _ db tt (rw t refl))) (raised _ _ db out)
        ] in
      (
        raised _ _ db out,
        raised _ _ db out,
        raised _ _ db out,
        toggled_out,
        raised _ _ db out,
        raised _ _ db out,
      )
