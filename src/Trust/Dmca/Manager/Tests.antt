-- ===== src/Trust/Dmca/Manager/Tests.antt =====
-- infomesh/trust/dmca.py on one notice, which is created, acknowledged twice and reloaded.
use infomesh.Prelude.{
  ◌+◌, ◌≡◌, subst, ◌↔◌, refl, true, some, [], ◌∷◌, arith, In, Text, text_eq, ◌==◌, bytes,
}
use infomesh.Prelude.Dict.{lookup, insert}
use infomesh.Prelude.Result.{ok}
use infomesh.Prelude.Hash.{toy_hash, hexdigest, hex, hex_digit}
use infomesh.Prelude.Clock.{or_clock}
use infomesh.Trust.Dmca.{
  Printing, Scan, KeyPairLike, complied, TakedownNotice, TakedownRecord, TakedownManager, new_store,
  open_manager, load_rows,
}
use infomesh.Trust.Dmca.Manager.{
  make_notice, create_notice, acknowledge, check_compliance, is_taken_down, verify_notice,
  first_status, check_rate_limit, enter_notice, generate_notice_id,
}
use infomesh.Trust.Dmca.Manager.Restart.{
  Reachable, opened, created, noted, restarted, Consistent, is_taken_down_iff,
}
use infomesh.Trust.Dmca.Manager.Compliance.{check_compliance-acknowledge}
use infomesh.Trust.Dmca.Manager.Signed.{verify_notice-create_notice, verify_notice_moved}

instance abbrev plain : Printing
plain = record { print_float = λ x. x ∷ []; print_whole = λ x. x ∷ [] }

instance abbrev in_order : Scan
in_order = record { scan = λ rows. rows; scan_iff = λ x rows. (λ i. i, λ i. i) }

-- A signature that is the text itself.
abbrev holder : KeyPairLike
holder = record { peer_id = bytes "h"; sign = λ t. t; verify = λ t s. t == s }

abbrev page : Text
page = bytes "u"

abbrev notice1 : TakedownNotice
notice1 = make_notice page (bytes "mine") holder [] 7

abbrev fresh : TakedownManager
fresh = open_manager (some new_store)

abbrev noticed : TakedownManager
noticed = (create_notice fresh page (bytes "mine") holder [] (some 7) 0).1

noticed_returns : (create_notice fresh page (bytes "mine") holder [] (some 7) 0).0 ≡ ok notice1
unfolding create_notice check_rate_limit or_clock lookup open_manager load_rows
noticed_returns = refl

record1 : TakedownRecord
record1 = record { notice = notice1; acknowledgments = []; propagated_to = [] }

noticed_records : lookup notice1.notice_id noticed.records ≡ some record1
unfolding create_notice check_rate_limit or_clock lookup open_manager load_rows insert enter_notice
    make_notice generate_notice_id hexdigest hex hex_digit record1
noticed_records = refl

is_taken_down_iff_example :
    (is_taken_down (open_manager noticed.store) page ≡ true)
    ↔ ((n : TakedownNotice) × In n (notice1 ∷ []) × (page ≡ n.url))
is_taken_down_iff_example =
    is_taken_down_iff (open_manager noticed.store) (notice1 ∷ [])
      (restarted (
        subst (λ r. Reachable noticed (noted r [])) noticed_returns
          (created page (bytes "mine") holder [] (some 7) 0 opened)))
      (unfold Consistent in (λ a b i j e. ground arith)) page

check_compliance-acknowledge_example :
    check_compliance
      (acknowledge noticed notice1.notice_id (bytes "b") complied (some 8) 0).1
      notice1.notice_id
      (bytes "b")
      (some 9)
      0
    ≡ complied
unfolding first_status make_notice generate_notice_id hexdigest record1
check_compliance-acknowledge_example =
    check_compliance-acknowledge noticed notice1.notice_id (bytes "b") complied (some 8) 0 record1
      notice1.notice_id (bytes "b") (some 9) 0 noticed_records

verify_notice-create_notice_example :
    (notice1.url ≡ page)
    × (notice1.deadline ≡ or_clock (some 7) 0 + 86_400_000_000)
    × (verify_notice notice1 holder ≡ true)
verify_notice-create_notice_example =
    verify_notice-create_notice fresh page (bytes "mine") holder [] (some 7) 0 notice1
      (λ t. (text_eq.same_iff t t).1 refl) (omega arith) noticed_returns

verify_notice_moved_example :
    verify_notice (record notice1 { url = bytes "u|v"; reason = bytes "w" }) holder
    ≡ verify_notice (record notice1 { url = bytes "u"; reason = bytes "v|w" }) holder
verify_notice_moved_example = verify_notice_moved notice1 holder (bytes "u") (bytes "v") (bytes "w")
