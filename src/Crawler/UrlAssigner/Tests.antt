-- ===== src/Crawler/UrlAssigner/Tests.antt =====
-- infomesh/crawler/url_assigner.py for two nodes, with a stand-in for SHA-256.
use infomesh.Prelude.{
  ◌≡◌, ◌⊎◌, refl, true, some, [], ◌∷◌, Text, bytes, text_eq, arith, text_beq_iff,
}
use infomesh.Prelude.Dict.{contains, lookup, insert}
use infomesh.Prelude.Hash.{toy_hash, Collision, hexdigest, hex, hex_digit}
use infomesh.Crawler.UrlAssigner.{
  new_assigner, add_peer, closest_peer, closest_from, is_local_owner, xor_distance, int_base_16,
  int_from, digit_value, ljust,
}
use infomesh.Crawler.UrlAssigner.Closest.{joined, apply, apply_all}
use infomesh.Crawler.UrlAssigner.Owners.{IsPeer, owners_agree}

abbrev a : Text
a = bytes "a"

abbrev b : Text
b = bytes "b"

-- The shorter text is filled up on the right: b0 and c1.
padded_right : xor_distance (bytes "b") (bytes "c1") ≡ some 113
unfolding xor_distance int_base_16 int_from digit_value ljust
padded_right = refl

same_peers :
    (p : Text)
    → contains p (apply_all (new_assigner a) (joined b ∷ [])).peers
      ≡ contains p (apply_all (new_assigner b) (joined a ∷ [])).peers
unfolding apply_all apply new_assigner add_peer contains lookup insert
same_peers p = ground (arith, text_beq_iff p a, text_beq_iff p b)

owners_agree_example :
    (closest_peer (apply_all (new_assigner a) (joined b ∷ [])) (bytes "c")
      ≡ closest_peer (apply_all (new_assigner b) (joined a ∷ [])) (bytes "c"))
    ⊎ Collision (IsPeer (apply_all (new_assigner a) (joined b ∷ [])))
owners_agree_example = owners_agree a b (joined b ∷ []) (joined a ∷ []) (bytes "c") same_peers

-- Both nodes with the id a.
a_owns : is_local_owner (apply_all (new_assigner a) (joined b ∷ [])) (bytes "a") ≡ some true
unfolding is_local_owner closest_peer closest_from xor_distance int_base_16 int_from digit_value
    ljust new_assigner add_peer apply_all apply contains lookup insert hexdigest hex hex_digit
a_owns = refl
