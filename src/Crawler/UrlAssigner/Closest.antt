-- ===== src/Crawler/UrlAssigner/Closest.antt =====
-- infomesh/crawler/url_assigner.py: a URL belongs to the known peer that is closest to its hash.
use infomesh.Prelude.{
  ℕ, ◌≤◌, ◌≡◌, ◌⊎◌, inl, inr, refl, sym, ap, ◌∙◌, true, false, some, List, [], ◌∷◌, arith, ltb,
  bit_xor, Text, text_eq, text_beq_iff, ◌==◌, Bool-cases, subst,
}
use infomesh.Prelude.Dict.{Dict, lookup, contains, insert, erase, IsUnique}
use infomesh.Prelude.Dict.Laws.{insert-IsUnique, erase-IsUnique, contains-insert}
use infomesh.Prelude.Dict.Subset.{contains-head, contains-tail, contains-erase, contains-cons}
use infomesh.Prelude.Hash.{Sha256}
use infomesh.Crawler.UrlAssigner.{
  UrlAssigner, content_hash, new_assigner, add_peer, remove_peer, xor_distance, closest_from,
  closest_peer,
}
use infomesh.Crawler.UrlAssigner.Distance.{hash_value, xor_distance-content_hash}

found_in :
    (q v : Text) (d : Dict Text Text) (p : Text)
    → (p ≡ q) ⊎ (contains p d ≡ true)
    → contains p ((q, v) ∷ d) ≡ true
found_in q v d p (inl e) = subst (λ x. contains x ((q, v) ∷ d) ≡ true) (sym e) (contains-head q v d)
found_in q v d p (inr c) = contains-tail p q v d c

-- A peer that comes or goes.
pub data Change : Type 0 where
  joined departed : Text → Change

module _ ⦃h : Sha256⦄ where
  unfoldable pub apply : UrlAssigner → Change → UrlAssigner
  apply u (joined peer_id) = add_peer u peer_id
  apply u (departed peer_id) = remove_peer u peer_id

  unfoldable pub apply_all : UrlAssigner → List Change → UrlAssigner
  apply_all u [] = u
  apply_all u (c ∷ rest) = apply_all (apply u c) rest

  abbrev Hashed : Dict Text Text → Type 0
  Hashed [] = Unit
  Hashed ((p, q) ∷ rest) = (q ≡ content_hash p) × Hashed rest

  -- Every peer stands once, with its hash, and the node itself is one of them.
  pub record IsAssigner (u : UrlAssigner) : Type 0 where
    pub unique : IsUnique u.peers
    pub hashed : Hashed u.peers
    pub local_hashed : u.local_hash ≡ content_hash u.local_peer_id
    pub local_known : contains u.local_peer_id u.peers ≡ true

  abbrev pub distance : Text → Text → ℕ
  distance url peer_id = bit_xor (hash_value url) (hash_value peer_id)

  Hashed-insert :
      (p : Text) (d : Dict Text Text)
      → Hashed d
      → contains p d ≡ false
      → Hashed (insert p (content_hash p) d)
  unfolding insert contains lookup
  Hashed-insert p [] a n = (refl, tt)
  Hashed-insert p ((q, v) ∷ d) a n = ground (arith, Hashed-insert p d a.1)

  Hashed-erase : (p : Text) (d : Dict Text Text) → Hashed d → Hashed (erase p d)
  unfolding erase
  Hashed-erase p [] a = tt
  Hashed-erase p ((q, v) ∷ d) a = ground (arith, Hashed-erase p d a.1)

  add_peer-IsAssigner : (u : UrlAssigner) (p : Text) → IsAssigner u → IsAssigner (add_peer u p)
  unfolding add_peer
  add_peer-IsAssigner u p i = elim (Bool-cases (contains p u.peers)) [
    | inl there ↦ rw there i
    | inr new ↦ rw new (record {
      unique = insert-IsUnique p (content_hash p) u.peers i.unique;
      hashed = Hashed-insert p u.peers i.hashed new;
      local_hashed = i.local_hashed;
      local_known =
          ground (arith, contains-insert p u.local_peer_id (content_hash p) u.peers, i.local_known);
    })
  ]

  remove_peer-IsAssigner :
      (u : UrlAssigner) (p : Text) → IsAssigner u → IsAssigner (remove_peer u p)
  unfolding remove_peer
  remove_peer-IsAssigner u p i = elim (Bool-cases (p == u.local_peer_id)) [
    | inl local ↦ rw local i
    | inr other ↦ rw other (record {
      unique = erase-IsUnique p u.peers i.unique;
      hashed = Hashed-erase p u.peers i.hashed;
      local_hashed = i.local_hashed;
      local_known =
          contains-erase u.local_peer_id p u.peers
            (ground (arith, text_beq_iff p u.local_peer_id, text_beq_iff u.local_peer_id p))
            i.local_known;
    })
  ]

  -- The loop ends on the best of the peers so far and of those that are left.
  closest_from-least :
      (url best : Text) (d : Dict Text Text)
      → Hashed d
      → (p : Text) × (closest_from (content_hash url) best (distance url best) d ≡ some p)
        × ((p ≡ best) ⊎ (contains p d ≡ true))
        × (distance url p ≤ distance url best)
        × ((q : Text) → contains q d ≡ true → distance url p ≤ distance url q)
  unfolding closest_from
  closest_from-least url best [] a =
      (best, refl, inl refl, omega arith, λ q c. absurd (unfold contains lookup in cc))
  closest_from-least url best ((q, v) ∷ d) a =
      let e : xor_distance (content_hash url) v ≡ some (distance url q) =
        ap (xor_distance (content_hash url)) a.0 ∙ xor_distance-content_hash url q in
      elim (Bool-cases (ltb (distance url q) (distance url best))) [
        | inl closer ↦
            let (p, r, from, le, least) = closest_from-least url q d a.1 in
            (
              p,
              rw (e, closer) r,
              inr (found_in q v d p from),
              ground arith,
              λ s c. elim (contains-cons s q v d c) [
                | inl is_q ↦ subst (λ x. distance url p ≤ distance url x) (sym is_q) le
                | inr later ↦ least s later
              ],
            )
        | inr same ↦
            let (p, r, from, le, least) = closest_from-least url best d a.1 in
            (
              p,
              rw (e, same) r,
              elim from [ inl b ↦ inl b | inr c ↦ inr (contains-tail p q v d c) ],
              le,
              λ s c. elim (contains-cons s q v d c) [
                | inl is_q ↦ subst (λ x. distance url p ≤ distance url x) (sym is_q) (ground arith)
                | inr later ↦ least s later
              ],
            )
      ]

  closest_peer-eq :
      (u : UrlAssigner) (url : Text)
      → IsAssigner u
      → closest_peer u url
        ≡ closest_from (content_hash url) u.local_peer_id (distance url u.local_peer_id) u.peers
  unfolding closest_peer
  closest_peer-eq u url i = rw (i.local_hashed, xor_distance-content_hash url u.local_peer_id) refl

  pub closest_peer-least :
      (u : UrlAssigner) (url : Text)
      → IsAssigner u
      → (p : Text) × (closest_peer u url ≡ some p)
        × (contains p u.peers ≡ true)
        × ((q : Text) → contains q u.peers ≡ true → distance url p ≤ distance url q)
  closest_peer-least u url i =
      let (p, r, from, le, least) = closest_from-least url u.local_peer_id u.peers i.hashed in
      (
        p,
        closest_peer-eq u url i ∙ r,
        elim from [
          | inl b ↦ subst (λ x. contains x u.peers ≡ true) (sym b) i.local_known
          | inr c ↦ c
        ],
        least,
      )

  apply_all-IsAssigner :
      (u : UrlAssigner) (changes : List Change) → IsAssigner u → IsAssigner (apply_all u changes)
  unfolding apply_all apply
  apply_all-IsAssigner u [] i = i
  apply_all-IsAssigner u (joined p ∷ rest) i =
      apply_all-IsAssigner (add_peer u p) rest (add_peer-IsAssigner u p i)
  apply_all-IsAssigner u (departed p ∷ rest) i =
      apply_all-IsAssigner (remove_peer u p) rest (remove_peer-IsAssigner u p i)

  new_assigner-IsAssigner : (local : Text) → IsAssigner (new_assigner local)
  unfolding new_assigner
  new_assigner-IsAssigner local = record {
    unique = unfold lookup in (refl, tt);
    hashed = (refl, tt);
    local_hashed = refl;
    local_known = contains-head local (content_hash local) [];
  }

  pub history-IsAssigner :
      (local : Text) (changes : List Change) → IsAssigner (apply_all (new_assigner local) changes)
  history-IsAssigner local changes =
      apply_all-IsAssigner (new_assigner local) changes (new_assigner-IsAssigner local)

  -- The node keeps its own id.
  apply-local_peer_id : (u : UrlAssigner) (c : Change) → (apply u c).local_peer_id ≡ u.local_peer_id
  unfolding apply add_peer remove_peer
  apply-local_peer_id u (joined p) = ground arith
  apply-local_peer_id u (departed p) = ground arith

  apply_all-local_peer_id :
      (u : UrlAssigner) (changes : List Change)
      → (apply_all u changes).local_peer_id ≡ u.local_peer_id
  unfolding apply_all
  apply_all-local_peer_id u [] = refl
  apply_all-local_peer_id u (c ∷ rest) =
      apply_all-local_peer_id (apply u c) rest ∙ apply-local_peer_id u c

  pub history-local_peer_id :
      (local : Text) (changes : List Change)
      → (apply_all (new_assigner local) changes).local_peer_id ≡ local
  unfolding new_assigner
  history-local_peer_id local changes = apply_all-local_peer_id (new_assigner local) changes

  -- Whatever peers have come and gone, closest_peer returns one of the known peers, and none of the known peers has
  -- a hash at a smaller distance from the hash of the URL.
  pub closest_peer_known :
      (local : Text) (changes : List Change) (url : Text)
      → let u = apply_all (new_assigner local) changes in
        (p : Text) × (closest_peer u url ≡ some p)
        × (contains p u.peers ≡ true)
        × ((q : Text)
            → contains q u.peers ≡ true
            → bit_xor (hash_value url) (hash_value p) ≤ bit_xor (hash_value url) (hash_value q))
  closest_peer_known local changes url =
      closest_peer-least (apply_all (new_assigner local) changes) url
        (history-IsAssigner local changes)
