-- ===== src/Trust/Dmca/Manager.antt =====
-- infomesh/trust/dmca.py: the methods of `TakedownManager`. Where the code may raise, the manager
-- comes back beside the error.
mod Rows
pub mod Restart
pub mod Compliance
pub mod Signed
mod Tests
use infomesh.Prelude.{
  ℕ, ◌+◌, ◌*◌, Bool, true, false, ◌||◌, not, Option, none, some, List, [], ◌∷◌, ◌++◌, ltb,
  if◌then◌else◌, length, take, keep, Text, bytes, text_eq, ◌==◌,
}
use infomesh.Prelude.Clock.{or_clock}
use infomesh.Prelude.Dict.{Dict, lookup, insert, contains}
use infomesh.Prelude.Result.{Result, ok, err}
use infomesh.Prelude.Hash.{Sha256, hexdigest}
use infomesh.Trust.Dmca.{
  Printing, KeyPairLike, hour, compliance_deadline_hours, max_notice_length, max_notices_per_hour,
  TakedownStatus, acknowledged, complied, invalid, pending, lapsed, TakedownNotice, TakedownAck,
  TakedownRecord, TakedownManager, persist, save_notice, save_ack, save_propagation,
}

abbrev pub or_empty : Option (List ℕ) → List ℕ
or_empty none = []
or_empty (some ts) = ts

-- The times of the last hour.
abbrev pub last_hour : ℕ → List ℕ → List ℕ
last_hour now window = keep (λ t. ltb now (t + hour)) window

pub check_rate_limit : TakedownManager → Text → ℕ → Bool × TakedownManager
check_rate_limit m requester_id now =
    let window = last_hour now (or_empty (lookup requester_id m.rate_window)) in
    (
      ltb (length window) max_notices_per_hour,
      record m { rate_window = insert requester_id window m.rate_window },
    )

-- `_generate_notice_id`
pub generate_notice_id : ⦃h : Sha256⦄ ⦃p : Printing⦄ → Text → Text → ℕ → Text
generate_notice_id ⦃h⦄ ⦃p⦄ url peer_id timestamp = take 24 (
    hexdigest (
      bytes "takedown|"
      ++ (url ++ (bytes "|" ++ (peer_id ++ (bytes "|" ++ p.print_float timestamp))))))

-- `_notice_payload`
pub notice_payload : ⦃p : Printing⦄ → Text → Text → Text → ℕ → Text
notice_payload ⦃p⦄ notice_id url reason created_at =
    notice_id
    ++ (bytes "|" ++ (url ++ (bytes "|" ++ (reason ++ (bytes "|" ++ p.print_float created_at)))))

pub data DmcaError : Type 0 where
  rate_limit_exceeded : DmcaError

-- the notice that `create_notice` makes at the time `now`
pub make_notice :
    ⦃h : Sha256⦄ ⦃p : Printing⦄ → Text → Text → KeyPairLike → Text → ℕ → TakedownNotice
make_notice url reason key contact_info now =
    let notice_id = generate_notice_id url key.peer_id now in
    record {
      notice_id = notice_id;
      url = url;
      requester_id = key.peer_id;
      reason = take max_notice_length reason;
      signature = key.sign (notice_payload notice_id url reason now);
      created_at = now;
      deadline = now + compliance_deadline_hours * hour;
      contact_info = contact_info;
    }

-- how `create_notice` enters it
pub enter_notice : TakedownNotice → TakedownManager → TakedownManager
enter_notice n m = persist (save_notice n) (record m {
  records =
      insert n.notice_id (record { notice = n; acknowledgments = []; propagated_to = [] })
        m.records;
  url_takedowns = insert n.url n.notice_id m.url_takedowns;
  rate_window =
      insert n.requester_id (or_empty (lookup n.requester_id m.rate_window) ++ n.created_at ∷ [])
        m.rate_window;
})

pub create_notice :
    ⦃h : Sha256⦄ ⦃p : Printing⦄
    → TakedownManager
    → Text
    → Text
    → KeyPairLike
    → Text
    → Option ℕ
    → ℕ
    → Result DmcaError TakedownNotice × TakedownManager
create_notice m url reason key contact_info now clock =
    let time = or_clock now clock in
    let (within, m') = check_rate_limit m key.peer_id time in
    let n = make_notice url reason key contact_info time in
    if within then (ok n, enter_notice n m') else (err rate_limit_exceeded, m')

pub verify_notice : ⦃p : Printing⦄ → TakedownNotice → KeyPairLike → Bool
verify_notice n key =
    key.verify (notice_payload n.notice_id n.url n.reason n.created_at) n.signature

-- `now if status == TakedownStatus.COMPLIED else None`
abbrev pub time_complied : TakedownStatus → ℕ → Option ℕ
time_complied complied now = some now
time_complied _ now = none

pub make_ack : ⦃p : Printing⦄ → Text → Text → TakedownStatus → ℕ → TakedownAck
make_ack ⦃p⦄ notice_id peer_id status now = record {
  notice_id = notice_id;
  peer_id = peer_id;
  status = status;
  complied_at = time_complied status now;
  detail = bytes "acknowledged at " ++ p.print_whole now;
}

-- `record.acknowledgments.append(ack)`
abbrev pub with_ack : TakedownRecord → TakedownAck → TakedownRecord
with_ack r ack = record r { acknowledgments = r.acknowledgments ++ ack ∷ [] }

pub acknowledge :
    ⦃p : Printing⦄
    → TakedownManager
    → Text
    → Text
    → TakedownStatus
    → Option ℕ
    → ℕ
    → Option TakedownAck × TakedownManager
acknowledge m notice_id peer_id status now clock = elim (lookup notice_id m.records) [
  | none ↦ (none, m)
  | some r ↦
      let ack = make_ack notice_id peer_id status (or_clock now clock) in
      (
        some ack,
        persist (save_ack ack) (record m { records = insert notice_id (with_ack r ack) m.records }),
      )
]

pub mark_complied :
    ⦃p : Printing⦄
    → TakedownManager
    → Text
    → Text
    → Option ℕ
    → ℕ
    → Option TakedownAck × TakedownManager
mark_complied m notice_id peer_id now clock = acknowledge m notice_id peer_id complied now clock

abbrev pub any_text : Text → List Text → Bool
any_text t [] = false
any_text t (x ∷ xs) = let rest = any_text t xs in if t == x then true else rest

abbrev pub with_peer : TakedownRecord → Text → TakedownRecord
with_peer r peer_id = record r { propagated_to = r.propagated_to ++ peer_id ∷ [] }

pub record_propagation : TakedownManager → Text → Text → TakedownManager
record_propagation m notice_id peer_id = elim (lookup notice_id m.records) [
  | none ↦ m
  | some r ↦
      if any_text peer_id r.propagated_to
      then m
      else persist (save_propagation notice_id peer_id)
          (record m { records = insert notice_id (with_peer r peer_id) m.records })
]

pub is_taken_down : TakedownManager → Text → Bool
is_taken_down m url = contains url m.url_takedowns

abbrev pub notice_of : Option TakedownRecord → Option TakedownNotice
notice_of none = none
notice_of (some r) = some (r.notice)

-- `if notice_id and notice_id in self._records`: an empty id counts as none
pub get_notice_for_url : TakedownManager → Text → Option TakedownNotice
get_notice_for_url m url = elim (lookup url m.url_takedowns) [
  | none ↦ none
  | some [] ↦ none
  | some (c ∷ i) ↦ notice_of (lookup (c ∷ i) m.records)
]

pub get_record : TakedownManager → Text → Option TakedownRecord
get_record m notice_id = lookup notice_id m.records

-- the status in the first acknowledgment of the peer
pub first_status : Text → List TakedownAck → Option TakedownStatus
first_status peer_id [] = none
first_status peer_id (a ∷ acks) =
    let rest = first_status peer_id acks in if a.peer_id == peer_id then some (a.status) else rest

pub check_compliance : TakedownManager → Text → Text → Option ℕ → ℕ → TakedownStatus
check_compliance m notice_id peer_id now clock = elim (lookup notice_id m.records) [
  | none ↦ invalid
  | some r ↦ elim (first_status peer_id r.acknowledgments) [
    | some s ↦ s
    | none ↦ if ltb (r.notice.deadline) (or_clock now clock) then lapsed else pending
  ]
]

-- the notices of the records, as `list_active` returns them
pub active_from : Dict Text TakedownRecord → List TakedownNotice
active_from [] = []
active_from ((i, r) ∷ d) = r.notice ∷ active_from d

pub list_active : TakedownManager → List TakedownNotice
list_active m = active_from m.records

abbrev pub or_pending : Option TakedownStatus → TakedownStatus
or_pending none = pending
or_pending (some s) = s

-- `status not in (COMPLIED, INVALID)`
abbrev pub is_open : TakedownStatus → Bool
is_open complied = false
is_open invalid = false
is_open _ = true

pub non_compliant_from : Text → Dict Text TakedownRecord → List TakedownNotice
non_compliant_from peer_id [] = []
non_compliant_from peer_id ((i, r) ∷ d) =
    let rest = non_compliant_from peer_id d in
    if is_open (or_pending (first_status peer_id r.acknowledgments)) then r.notice ∷ rest else rest

pub list_non_compliant : TakedownManager → Text → List TakedownNotice
list_non_compliant m peer_id = non_compliant_from peer_id m.records
