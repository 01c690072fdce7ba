-- ===== src/Trust/Dmca/Manager/Signed.antt =====
-- infomesh/trust/dmca.py: the signature of a notice.
use infomesh.Prelude.{
  ℕ, ◌≡◌, ◌≤◌, ◌+◌, refl, sym, ap, ◌∙◌, true, inl, inr, Option, ◌++◌, append_assoc, length,
  take_all, Text, bytes,
}
use infomesh.Prelude.Clock.{or_clock}
use infomesh.Prelude.Result.{ok, ok-injective}
use infomesh.Prelude.Hash.{Sha256}
use infomesh.Trust.Dmca.{Printing, KeyPairLike, TakedownNotice, TakedownManager, max_notice_length}
use infomesh.Trust.Dmca.Manager.{create_notice, verify_notice, notice_payload, make_notice}
use infomesh.Trust.Dmca.Manager.Restart.{create_notice-cases}

created_notice :
    ⦃h : Sha256⦄ ⦃p : Printing⦄
    → (m : TakedownManager) (url reason : Text) (key : KeyPairLike) (contact_info : Text)
      (now : Option ℕ) (clock : ℕ) (n : TakedownNotice)
    → (create_notice m url reason key contact_info now clock).0 ≡ ok n
    → n ≡ make_notice url reason key contact_info (or_clock now clock)
created_notice m url reason key contact_info now clock n h =
    elim (create_notice-cases m url reason key contact_info now clock) [
      | inl (within, e) ↦ ok-injective (sym h ∙ ap (λ q. q.0) e)
      | inr (beyond, e) ↦ cc
    ]

-- The notice that `create_notice` returns is for the given URL, falls due 24 hours later, and passes
-- `verify_notice` with the key pair that signed it, where the reason has at most 10,000 characters
-- and the key pair accepts its own signatures.
pub verify_notice-create_notice :
    ⦃h : Sha256⦄ ⦃p : Printing⦄
    → (m : TakedownManager) (url reason : Text) (key : KeyPairLike) (contact_info : Text)
      (now : Option ℕ) (clock : ℕ) (n : TakedownNotice)
    → ((t : Text) → key.verify t (key.sign t) ≡ true)
    → length reason ≤ max_notice_length
    → (create_notice m url reason key contact_info now clock).0 ≡ ok n
    → (n.url ≡ url)
      × (n.deadline ≡ or_clock now clock + 86_400_000_000)
      × (verify_notice n key ≡ true)
unfolding verify_notice make_notice
verify_notice-create_notice m url reason key contact_info now clock n own short made =
    rw (created_notice m url reason key contact_info now clock n made)
      (refl, refl, rw (take_all max_notice_length reason short) (own _))

-- The signature does not tell the URL from the reason: with `|` between them, a notice verifies
-- where the one does to whose URL the beginning of the reason has been moved.
pub verify_notice_moved :
    ⦃p : Printing⦄
    → (n : TakedownNotice) (key : KeyPairLike) (front back reason : Text)
    → verify_notice (record n { url = front ++ (bytes "|" ++ back); reason = reason }) key
      ≡ verify_notice (record n { url = front; reason = back ++ (bytes "|" ++ reason) }) key
unfolding verify_notice notice_payload
verify_notice_moved ⦃p⦄ n key front back reason =
    let end : Text = bytes "|" ++ p.print_float n.created_at in
    ap (λ t. key.verify (n.notice_id ++ (bytes "|" ++ t)) n.signature)
      (append_assoc front (bytes "|" ++ back) (bytes "|" ++ (reason ++ end))
        ∙ ap (λ t. front ++ (bytes "|" ++ t)) (sym (append_assoc back (bytes "|" ++ reason) end)))
