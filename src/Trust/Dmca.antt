-- ===== src/Trust/Dmca.antt =====
-- infomesh/trust/dmca.py: takedown notices, their acknowledgments, and the SQLite tables behind
-- them. A time is a natural number of microseconds. A str is the list of its characters, and
-- SHA-256 and the key pairs, which are parameters, are read with the encoding in front of them.
pub mod Manager
pub mod Wire
use infomesh.Prelude.{
  ℕ, ◌+◌, ◌*◌, Bool, true, false, ◌&&◌, not, Option, none, some, List, [], ◌∷◌, ◌++◌, map, ltb,
  if◌then◌else◌, length, take, keep, In, ◌↔◌, Text, bytes, text_eq, ◌==◌,
}
use infomesh.Prelude.Clock.{or_clock}
use infomesh.Prelude.Dict.{Dict, lookup, insert, erase, contains}
use infomesh.Prelude.Result.{Result, ok, err}
use infomesh.Prelude.Hash.{Sha256, hexdigest}

-- `f"{x}"` and `f"{x:.0f}"` of a float
pub record Printing : Type 0 where
  pub print_float : ℕ → Text
  pub print_whole : ℕ → Text

-- A SELECT without ORDER BY gives the rows in an order of the database's own choice.
pub record Scan : Type 1 where
  pub scan : {A : Type 0} → List A → List A
  pub scan_iff : {A : Type 0} (x : A) (rows : List A) → In x (scan rows) ↔ In x rows

pub record KeyPairLike : Type 0 where
  pub peer_id : Text
  pub sign : Text → Text
  pub verify : Text → Text → Bool

abbrev pub hour : ℕ
hour = 3_600_000_000

abbrev pub compliance_deadline_hours : ℕ
compliance_deadline_hours = 24

abbrev pub max_notice_length : ℕ
max_notice_length = 10_000

abbrev pub max_notices_per_hour : ℕ
max_notices_per_hour = 10

pub data TakedownStatus : Type 0 where
  pending acknowledged complied lapsed invalid : TakedownStatus

abbrev pub status_value : TakedownStatus → Text
status_value pending = bytes "pending"
status_value acknowledged = bytes "acknowledged"
status_value complied = bytes "complied"
status_value lapsed = bytes "expired"
status_value invalid = bytes "invalid"

pub record TakedownNotice : Type 0 where
  pub notice_id : Text
  pub url : Text
  pub requester_id : Text
  pub reason : Text
  pub signature : Text
  pub created_at : ℕ
  pub deadline : ℕ
  pub contact_info : Text

pub record TakedownAck : Type 0 where
  pub notice_id : Text
  pub peer_id : Text
  pub status : TakedownStatus
  pub complied_at : Option ℕ
  pub detail : Text

pub record TakedownRecord : Type 0 where
  pub notice : TakedownNotice
  pub acknowledgments : List TakedownAck
  pub propagated_to : List Text

-- The three tables, each with its rows in the order of their row numbers.
pub record TakedownStore : Type 0 where
  pub dmca_notices : List TakedownNotice
  pub dmca_acks : List TakedownAck
  pub dmca_propagations : List (Text × Text)

pub record TakedownManager : Type 0 where
  pub records : Dict Text TakedownRecord
  pub url_takedowns : Dict Text Text
  pub rate_window : Dict Text (List ℕ)
  pub store : Option TakedownStore

abbrev pub new_store : TakedownStore
new_store = record { dmca_notices = []; dmca_acks = []; dmca_propagations = [] }

abbrev pub empty_manager : Option TakedownStore → TakedownManager
empty_manager db = record { records = []; url_takedowns = []; rate_window = []; store = db }

-- INSERT OR REPLACE: a row with the same primary key goes, the new one is the last.
pub save_notice : TakedownNotice → TakedownStore → TakedownStore
save_notice n db = record db {
  dmca_notices = keep (λ r. not (r.notice_id == n.notice_id)) db.dmca_notices ++ n ∷ [];
}

abbrev pub same_ack : TakedownAck → TakedownAck → Bool
same_ack a b =
    a.notice_id == b.notice_id
    && (a.peer_id == b.peer_id && status_value a.status == status_value b.status)

pub save_ack : TakedownAck → TakedownStore → TakedownStore
save_ack a db = record db { dmca_acks = keep (λ r. not (same_ack r a)) db.dmca_acks ++ a ∷ [] }

abbrev pub any_pair : Text → Text → List (Text × Text) → Bool
any_pair i p [] = false
any_pair i p ((j, q) ∷ rows) =
    let rest = any_pair i p rows in if i == j && p == q then true else rest

-- INSERT OR IGNORE
pub save_propagation : Text → Text → TakedownStore → TakedownStore
save_propagation notice_id peer_id db =
    if any_pair notice_id peer_id db.dmca_propagations
    then db
    else record db { dmca_propagations = db.dmca_propagations ++ (notice_id, peer_id) ∷ [] }

abbrev pub persist : (TakedownStore → TakedownStore) → TakedownManager → TakedownManager
persist save m = record m { store = elim m.store [ none ↦ none | some db ↦ some (save db) ] }

pub load_acks : ⦃s : Scan⦄ → TakedownStore → Text → List TakedownAck
load_acks ⦃s⦄ db notice_id = s.scan (keep (λ r. r.notice_id == notice_id) db.dmca_acks)

abbrev pub second : Text × Text → Text
second (i, p) = p

pub load_propagations : ⦃s : Scan⦄ → TakedownStore → Text → List Text
load_propagations ⦃s⦄ db notice_id =
    map second (s.scan (keep (λ r. r.0 == notice_id) db.dmca_propagations))

-- `load_all` row by row, and what `_load_from_store` does with each.
pub load_rows : ⦃s : Scan⦄ → TakedownStore → List TakedownNotice → TakedownManager → TakedownManager
load_rows db [] m = m
load_rows db (n ∷ rows) m = load_rows db rows (record m {
  records =
      insert n.notice_id
        (record {
          notice = n;
          acknowledgments = load_acks db n.notice_id;
          propagated_to = load_propagations db n.notice_id;
        })
        m.records;
  url_takedowns = insert n.url n.notice_id m.url_takedowns;
})

-- `TakedownManager(db_path)` on the tables that the file holds
pub open_manager : ⦃s : Scan⦄ → Option TakedownStore → TakedownManager
open_manager none = empty_manager none
open_manager ⦃s⦄ (some db) = load_rows db (s.scan db.dmca_notices) (empty_manager (some db))
