-- ===== src/Crawler/Dedup/DocId.antt =====
-- infomesh/crawler/dedup.py: the ids that stand for documents, and the two forms of a fingerprint.
use infomesh.Prelude.{
  ℕ, zero, suc, ◌*◌, ◌/◌, ◌%◌, ◌^◌, ◌<◌, ◌≡◌, refl, ap, ◌∙◌, some, List, [], ◌∷◌, arith,
  length-take, take, All, Text,
}
use infomesh.Prelude.Hash.{Sha256, hex, hex_digit, hexdigest}
use infomesh.Crawler.UrlAssigner.{content_hash, int_base_16}
use infomesh.Crawler.UrlAssigner.Distance.{big_endian, int_base_16-hex}
use infomesh.Crawler.Dedup.{to_signed64, to_unsigned64, doc_id_of}

-- A fingerprint comes back from the signed form in which SQLite keeps it.
pub to_unsigned64-to_signed64 : (fp : ℕ) → fp < 2 ^ 64 → to_unsigned64 (to_signed64 fp) ≡ fp
unfolding to_unsigned64 to_signed64
to_unsigned64-to_signed64 fp h = ground arith

take_none : (n : ℕ) → ◌≡◌ {A = Text} (take n []) []
take_none zero = refl
take_none (suc n) = refl

take-hex : (n : ℕ) (bs : Text) → take (2 * n) (hex bs) ≡ hex (take n bs)
unfolding hex
take-hex zero bs = refl
take-hex (suc n) [] = take_none (2 * suc n)
take-hex (suc n) (b ∷ bs) =
    let e : 2 * suc n ≡ suc (suc (2 * n)) = omega arith in
    rw e (ap (λ r. hex_digit (b / 16) ∷ hex_digit (b % 16) ∷ r) (take-hex n bs))

All-take : {A : Type 0} (P : A → Type 0) (n : ℕ) (xs : List A) → All P xs → All P (take n xs)
All-take P zero xs a = tt
All-take P (suc n) [] a = tt
All-take P (suc n) (x ∷ xs) a = (a.0, All-take P n xs a.1)

-- Every digest has an id.
pub doc_id_of-content_hash :
    ⦃h : Sha256⦄ → (t : Text) → (i : ℕ) × (doc_id_of (content_hash t) ≡ some i)
unfolding doc_id_of hexdigest
doc_id_of-content_hash ⦃h⦄ t =
    let bs = take 4 (h.digest t) in
    let e : int_base_16 (take 8 (hex (h.digest t))) ≡ some (big_endian 0 bs) =
      ap int_base_16 (take-hex 4 (h.digest t))
      ∙ int_base_16-hex bs (omega (arith, length-take 4 (h.digest t), h.length-digest t))
          (All-take (λ b. b < 256) 4 (h.digest t) (h.digest-IsBytes t)) in
    (big_endian 0 bs % 2 ^ 31, rw (doc_id_of, e) refl)
