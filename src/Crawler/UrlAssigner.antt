-- ===== src/Crawler/UrlAssigner.antt =====
-- infomesh/crawler/url_assigner.py: which of the known peers a URL belongs to, by the exclusive or of
-- hashes.
pub mod Distance
pub mod Closest
pub mod Owners
mod Tests
use infomesh.Prelude.{
  ℕ, zero, suc, ◌+◌, ◌-◌, ◌*◌, Bool, true, false, ◌&&◌, Option, none, some, List, [], ◌∷◌, ◌++◌,
  ltb, leb, if◌then◌else◌, length, replicate, max, bit_xor, null, Text, text_eq, ◌==◌,
}
use infomesh.Prelude.Dict.{Dict, contains, insert, erase}
use infomesh.Prelude.Hash.{Sha256, hexdigest}
use infomesh.Prelude.Result.Partial.{◌>>=◌}

-- `content_hash` of hashing.py
abbrev pub content_hash : ⦃h : Sha256⦄ → Text → Text
content_hash text = hexdigest text

-- The value of a hexadecimal digit; any other character is a ValueError.
pub digit_value : ℕ → Option ℕ
digit_value c =
    if leb 48 c && leb c 57
    then some (c - 48)
    else if leb 97 c && leb c 102
    then some (c - 87)
    else if leb 65 c && leb c 70
    then some (c - 55)
    else none

-- `int(text, 16)` of hexadecimal digits, from the value of the digits before
pub int_from : ℕ → Text → Option ℕ
int_from acc [] = some acc
int_from acc (c ∷ cs) = digit_value c >>= λ d. int_from (acc * 16 + d) cs

pub int_base_16 : Text → Option ℕ
int_base_16 text = if null text then none else int_from 0 text

-- `text.ljust(width, "0")`
pub ljust : Text → ℕ → Text
ljust text width = text ++ replicate (width - length text) 48

pub xor_distance : Text → Text → Option ℕ
xor_distance hex_a hex_b =
    let max_len = max (length hex_a) (length hex_b) in
    int_base_16 (ljust hex_a max_len) >>= λ int_a.
    int_base_16 (ljust hex_b max_len) >>= λ int_b. some (bit_xor int_a int_b)

pub record UrlAssigner : Type 0 where
  pub local_peer_id : Text
  pub local_hash : Text
  pub peers : Dict Text Text

pub new_assigner : ⦃h : Sha256⦄ → Text → UrlAssigner
new_assigner local_peer_id = record {
  local_peer_id = local_peer_id;
  local_hash = content_hash local_peer_id;
  peers = (local_peer_id, content_hash local_peer_id) ∷ [];
}

pub add_peer : ⦃h : Sha256⦄ → UrlAssigner → Text → UrlAssigner
add_peer u peer_id =
    if contains peer_id u.peers
    then u
    else record u { peers = insert peer_id (content_hash peer_id) u.peers }

pub remove_peer : UrlAssigner → Text → UrlAssigner
remove_peer u peer_id =
    if peer_id == u.local_peer_id then u else record u { peers = erase peer_id u.peers }

abbrev pub known_peers : UrlAssigner → ℕ
known_peers u = length u.peers

-- the loop of `closest_peer`
pub closest_from : Text → Text → ℕ → Dict Text Text → Option Text
closest_from url_hash best_peer best_dist [] = some best_peer
closest_from url_hash best_peer best_dist ((peer_id, peer_hash) ∷ rest) =
    let closer = λ (dist : ℕ). closest_from url_hash peer_id dist rest in
    let same = closest_from url_hash best_peer best_dist rest in
    xor_distance url_hash peer_hash >>= λ dist. if ltb dist best_dist then closer dist else same

pub closest_peer : ⦃h : Sha256⦄ → UrlAssigner → Text → Option Text
closest_peer u url =
    let url_hash = content_hash url in
    xor_distance url_hash u.local_hash >>= λ best_dist.
    closest_from url_hash u.local_peer_id best_dist u.peers

pub is_local_owner : ⦃h : Sha256⦄ → UrlAssigner → Text → Option Bool
is_local_owner u url = closest_peer u url >>= λ owner. some (owner == u.local_peer_id)

pub record CrawlAssignment : Type 0 where
  pub url : Text
  pub depth : ℕ
  pub assigner_peer_id : Text

pub assign : ⦃h : Sha256⦄ → UrlAssigner → Text → ℕ → Option CrawlAssignment
assign u url depth = closest_peer u url >>= λ owner.
    some (record { url = url; depth = depth; assigner_peer_id = owner })

pub filter_local_urls : ⦃h : Sha256⦄ → UrlAssigner → List Text → Option (List Text)
filter_local_urls u [] = some []
filter_local_urls u (url ∷ urls) =
    let others = filter_local_urls u urls in
    is_local_owner u url >>= λ owned. others >>= λ rest. some (if owned then url ∷ rest else rest)
