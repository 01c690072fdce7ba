-- ===== src/Trust/Dmca/Manager/Compliance.antt =====
-- infomesh/trust/dmca.py: which status a peer has for a notice.
use infomesh.Prelude.{
  ℕ, ◌≡◌, ◌↔◌, refl, sym, ap, ◌∙◌, Bool, true, ◌&&◌, ◌⊎◌, inl, inr, Option, none, some, List, [],
  ◌∷◌, ◌++◌, arith, if◌then◌else◌, In, Text, text_eq, ◌==◌, Bool-cases, Option-cases, ltb,
}
use infomesh.Prelude.Clock.{or_clock}
use infomesh.Prelude.Dict.{Dict, lookup, insert, IsUnique}
use infomesh.Prelude.Dict.Laws.{lookup-insert, eq_refl}
use infomesh.Trust.Dmca.{
  Printing, TakedownStatus, TakedownNotice, TakedownAck, TakedownRecord, TakedownManager, invalid,
  pending, lapsed,
}
use infomesh.Trust.Dmca.Manager.{
  acknowledge, check_compliance, first_status, list_non_compliant, non_compliant_from, is_open,
  or_pending, with_ack, make_ack,
}

first_status-append :
    (peer_id : Text) (acks : List TakedownAck) (a : TakedownAck)
    → first_status peer_id (acks ++ a ∷ []) ≡ elim (first_status peer_id acks) [
      | none ↦ if a.peer_id == peer_id then some (a.status) else none
      | some s ↦ some s
    ]
unfolding first_status
first_status-append peer_id [] a = refl
first_status-append peer_id (x ∷ acks) a = ground (arith, first_status-append peer_id acks a)

acknowledge-records :
    ⦃p : Printing⦄
    → (m : TakedownManager) (notice_id peer_id : Text) (status : TakedownStatus) (now : Option ℕ)
      (clock : ℕ) (r : TakedownRecord)
    → lookup notice_id m.records ≡ some r
    → (acknowledge m notice_id peer_id status now clock).1.records
      ≡ insert notice_id
          (with_ack r (make_ack notice_id peer_id status (or_clock now clock)))
          m.records
unfolding acknowledge
acknowledge-records m notice_id peer_id status now clock r e = rw (acknowledge, e) refl

-- the status of a peer in a record, at a time
abbrev status_in : Option TakedownRecord → Text → ℕ → TakedownStatus
status_in none peer_id now = invalid
status_in (some r) peer_id now = elim (first_status peer_id r.acknowledgments) [
  | some s ↦ s
  | none ↦ if ltb (r.notice.deadline) now then lapsed else pending
]

check_compliance-eq :
    (m : TakedownManager) (notice_id peer_id : Text) (now : Option ℕ) (clock : ℕ)
    → check_compliance m notice_id peer_id now clock
      ≡ status_in (lookup notice_id m.records) peer_id (or_clock now clock)
unfolding check_compliance
check_compliance-eq m notice_id peer_id now clock =
    elim (Option-cases (lookup notice_id m.records)) [
      | inl missing ↦ rw (check_compliance, missing) refl
      | inr (r, e) ↦ rw (check_compliance, e) refl
    ]

-- After an acknowledgment of a known notice by a peer, its status is the one acknowledged, unless the
-- peer had acknowledged before: then the status stays what it was first. No other status changes.
pub check_compliance-acknowledge :
    ⦃p : Printing⦄
    → (m : TakedownManager) (notice_id peer_id : Text) (status : TakedownStatus) (now : Option ℕ)
      (clock : ℕ) (r : TakedownRecord) (j q : Text) (later : Option ℕ) (clock' : ℕ)
    → lookup notice_id m.records ≡ some r
    → check_compliance (acknowledge m notice_id peer_id status now clock).1 j q later clock' ≡ (
        if j == notice_id && q == peer_id
        then elim (first_status peer_id r.acknowledgments) [ none ↦ status | some s ↦ s ]
        else check_compliance m j q later clock')
unfolding make_ack
check_compliance-acknowledge m notice_id peer_id status now clock r j q later clock' e =
    let a = make_ack notice_id peer_id status (or_clock now clock) in
    rw
      (
        check_compliance-eq (acknowledge m notice_id peer_id status now clock).1 j q later clock',
        check_compliance-eq m j q later clock',
        acknowledge-records m notice_id peer_id status now clock r e,
        lookup-insert notice_id j (with_ack r a) m.records,
      )
      (ground (
        arith,
        e,
        text_eq.same_iff j notice_id,
        text_eq.same_iff q peer_id,
        text_eq.same_iff peer_id q,
        first_status-append q r.acknowledgments a,
      ))

-- whether the record counts as one with which the peer has not complied
abbrev open_for : Text → TakedownRecord → Bool
open_for peer_id r = is_open (or_pending (first_status peer_id r.acknowledgments))

open_for-eq :
    (peer_id : Text) (r : TakedownRecord) (now : ℕ)
    → is_open (status_in (some r) peer_id now) ≡ open_for peer_id r
open_for-eq peer_id r now = ground arith

-- a record of the dictionary with the notice
abbrev Entered : Text → Dict Text TakedownRecord → TakedownNotice → Type 0
Entered peer_id d n =
    (i : Text) × (r : TakedownRecord) × (lookup i d ≡ some r)
    × (open_for peer_id r ≡ true)
    × (n ≡ r.notice)

Entered-tail :
    (peer_id j : Text) (r : TakedownRecord) (d : Dict Text TakedownRecord) (n : TakedownNotice)
    → lookup j d ≡ none
    → Entered peer_id d n
    → Entered peer_id ((j, r) ∷ d) n
unfolding lookup
Entered-tail peer_id j r d n missing (i, q, found, is, same) =
    (i, q, ground (arith, text_eq.same_iff i j), is, same)

non_compliant_from-Entered :
    (peer_id : Text) (d : Dict Text TakedownRecord) (n : TakedownNotice)
    → IsUnique d
    → In n (non_compliant_from peer_id d)
    → Entered peer_id d n
unfolding non_compliant_from lookup
non_compliant_from-Entered peer_id [] n u h = elim h [ ]
non_compliant_from-Entered peer_id ((j, r) ∷ d) n u h = elim (Bool-cases (open_for peer_id r)) [
  | inl is ↦
      let split : (n ≡ r.notice) ⊎ In n (non_compliant_from peer_id d) = ground arith in
      elim split [
        | inl e ↦ (j, r, ground (arith, eq_refl j), is, e)
        | inr i ↦ Entered-tail peer_id j r d n u.0 (non_compliant_from-Entered peer_id d n u.1 i)
      ]
  | inr closed ↦
      Entered-tail peer_id j r d n u.0 (non_compliant_from-Entered peer_id d n u.1 (ground arith))
]

Entered-non_compliant_from :
    (peer_id : Text) (d : Dict Text TakedownRecord) (n : TakedownNotice)
    → Entered peer_id d n
    → In n (non_compliant_from peer_id d)
unfolding non_compliant_from lookup
Entered-non_compliant_from peer_id [] n (i, r, found, is, same) = cc
Entered-non_compliant_from peer_id ((j, q) ∷ d) n (i, r, found, is, same) =
    elim (Bool-cases (i == j)) [
      | inl here ↦
          let e : q ≡ r = ground arith in
          ground (arith, same ∙ sym (ap (λ x. x.notice) e), ap (open_for peer_id) e)
      | inr there ↦
          let rest = Entered-non_compliant_from peer_id d n (i, r, ground arith, is, same) in
          ground arith
    ]

-- `list_non_compliant` returns exactly the notices for which `check_compliance` answers neither
-- COMPLIED nor INVALID at any one time, where no id stands twice among the records.
pub list_non_compliant_iff :
    (m : TakedownManager) (peer_id : Text) (now : Option ℕ) (clock : ℕ) (n : TakedownNotice)
    → IsUnique m.records
    → In n (list_non_compliant m peer_id) ↔ (
        (i : Text) × (r : TakedownRecord) × (lookup i m.records ≡ some r)
        × (is_open (check_compliance m i peer_id now clock) ≡ true)
        × (n ≡ r.notice))
unfolding list_non_compliant
list_non_compliant_iff m peer_id now clock n u = (
  λ h.
      let (i, r, found, is, same) = non_compliant_from-Entered peer_id m.records n u h in
      (
        i,
        r,
        found,
        rw (check_compliance-eq m i peer_id now clock, found)
            (open_for-eq peer_id r (or_clock now clock) ∙ is),
        same,
      ),
  λ (i, r, found, is, same). Entered-non_compliant_from peer_id m.records n (
    i,
    r,
    found,
    sym (open_for-eq peer_id r (or_clock now clock))
        ∙ ap (λ o. is_open (status_in o peer_id (or_clock now clock))) (sym found)
        ∙ ap is_open (sym (check_compliance-eq m i peer_id now clock))
        ∙ is,
    same,
  ),
)
