-- ===== src/Crawler/UrlAssigner/Owners.antt =====
-- infomesh/crawler/url_assigner.py: nodes that know the same peers agree on the owner of every URL.
use infomesh.Prelude.{
  ◌≡◌, ◌≢◌, ◌⊎◌, inl, inr, sym, ap, ◌∙◌, true, some, List, arith, Text, text_eq, text_beq_iff, ◌==◌,
  Bool-cases, subst,
}
use infomesh.Prelude.Dict.{contains}
use infomesh.Prelude.Hash.{Sha256, Collision}
use infomesh.Prelude.Xor.{bit_xor_cancel}
use infomesh.Prelude.Result.Partial.{◌>>=◌}
use infomesh.Crawler.UrlAssigner.{UrlAssigner, new_assigner, closest_peer, is_local_owner}
use infomesh.Crawler.UrlAssigner.Distance.{hash_value, hash_value-injective}
use infomesh.Crawler.UrlAssigner.Closest.{
  Change, apply_all, IsAssigner, closest_peer-least, history-IsAssigner, history-local_peer_id,
}

module _ ⦃h : Sha256⦄ where
  -- The peers of an assigner.
  abbrev pub IsPeer : UrlAssigner → Text → Type 0
  IsPeer u p = contains p u.peers ≡ true

  same_or_Collision :
      (u : UrlAssigner) (p q : Text)
      → IsPeer u p
      → IsPeer u q
      → hash_value p ≡ hash_value q
      → (p ≡ q) ⊎ Collision (IsPeer u)
  same_or_Collision u p q in_p in_q e = elim (Bool-cases (p == q)) [
    | inl same ↦ inl ((text_beq_iff p q).0 same)
    | inr other ↦
        let differs : p ≢ q = λ s. ground (arith, (text_beq_iff p q).1 s) in
        inr (p, q, in_p, in_q, differs, hash_value-injective p q e)
  ]

  agree :
      (u v : UrlAssigner) (url : Text)
      → IsAssigner u
      → IsAssigner v
      → ((p : Text) → contains p u.peers ≡ contains p v.peers)
      → (closest_peer u url ≡ closest_peer v url) ⊎ Collision (IsPeer u)
  agree u v url i j same =
      let (p, e, in_u, least_u) = closest_peer-least u url i in
      let (q, f, in_v, least_v) = closest_peer-least v url j in
      let values : hash_value p ≡ hash_value q =
        bit_xor_cancel (hash_value url) (hash_value p) (hash_value q)
          (omega (arith, least_u q (same q ∙ in_v), least_v p (sym (same p) ∙ in_u))) in
      elim (same_or_Collision u p q in_u (same q ∙ in_v) values) [
        | inl s ↦ inl (e ∙ (ap (some) s ∙ sym f))
        | inr c ↦ inr c
      ]

  -- Two nodes that know the same peers, whatever peers have come and gone at each, assign every URL to
  -- the same peer, or two different peers that they know have ids with one SHA-256 digest.
  pub owners_agree :
      (local_a local_b : Text) (changes_a changes_b : List Change) (url : Text)
      → ((p : Text)
          → contains p (apply_all (new_assigner local_a) changes_a).peers
            ≡ contains p (apply_all (new_assigner local_b) changes_b).peers)
      → (closest_peer (apply_all (new_assigner local_a) changes_a) url
          ≡ closest_peer (apply_all (new_assigner local_b) changes_b) url)
        ⊎ Collision (IsPeer (apply_all (new_assigner local_a) changes_a))
  owners_agree local_a local_b changes_a changes_b url same =
      agree (apply_all (new_assigner local_a) changes_a)
        (apply_all (new_assigner local_b) changes_b) url (history-IsAssigner local_a changes_a)
        (history-IsAssigner local_b changes_b) same

  is_local_owner-IsTrue :
      (u : UrlAssigner) (url p : Text)
      → closest_peer u url ≡ some p
      → is_local_owner u url ≡ some true
      → p ≡ u.local_peer_id
  unfolding is_local_owner
  is_local_owner-IsTrue u url p e o =
      let t : some (p == u.local_peer_id) ≡ some true =
        subst (λ c. (c >>= λ owner. some (owner == u.local_peer_id)) ≡ some true) e o in
      (text_beq_iff p u.local_peer_id).0 (cc)

  unique_owner :
      (u v : UrlAssigner) (url : Text)
      → IsAssigner u
      → IsAssigner v
      → ((p : Text) → contains p u.peers ≡ contains p v.peers)
      → is_local_owner u url ≡ some true
      → is_local_owner v url ≡ some true
      → (u.local_peer_id ≡ v.local_peer_id) ⊎ Collision (IsPeer u)
  unique_owner u v url i j same ou ov =
      let (p, e, in_u, least_u) = closest_peer-least u url i in
      let (q, f, in_v, least_v) = closest_peer-least v url j in
      elim (agree u v url i j same) [
        | inl s ↦
            let owners : p ≡ q = (let r : some p ≡ some q = sym e ∙ (s ∙ f) in cc) in
            inl (
              sym (is_local_owner-IsTrue u url p e ou)
              ∙ (owners ∙ is_local_owner-IsTrue v url q f ov))
        | inr c ↦ inr c
      ]

  -- Of two nodes that know the same peers, whatever peers have come and gone at each, both own one URL
  -- only if they have the same id, or two different peers that they know have ids with one digest.
  pub owner_unique :
      (local_a local_b : Text) (changes_a changes_b : List Change) (url : Text)
      → ((p : Text)
          → contains p (apply_all (new_assigner local_a) changes_a).peers
            ≡ contains p (apply_all (new_assigner local_b) changes_b).peers)
      → is_local_owner (apply_all (new_assigner local_a) changes_a) url ≡ some true
      → is_local_owner (apply_all (new_assigner local_b) changes_b) url ≡ some true
      → (local_a ≡ local_b) ⊎ Collision (IsPeer (apply_all (new_assigner local_a) changes_a))
  owner_unique local_a local_b changes_a changes_b url same own_a own_b =
      let a = apply_all (new_assigner local_a) changes_a in
      let b = apply_all (new_assigner local_b) changes_b in
      elim (unique_owner a b url (history-IsAssigner local_a changes_a)
        (history-IsAssigner local_b changes_b) same own_a own_b) [
          | inl e ↦ inl (
              sym (history-local_peer_id local_a changes_a)
              ∙ (e ∙ history-local_peer_id local_b changes_b))
          | inr c ↦ inr c
        ]
