-- ===== src/Trust/Dmca/Manager/Rows.antt =====
-- infomesh/trust/dmca.py: the rows of `dmca_notices`, and what a load of them puts into a manager.
use infomesh.Prelude.{
  ◌≡◌, ◌↔◌, refl, ap, ◌∙◌, Bool, true, false, not, ◌⊎◌, inl, inr, List, [], ◌∷◌, ◌++◌, arith,
  if◌then◌else◌, keep, In, Text, text_eq, ◌==◌, Bool-cases,
}
use infomesh.Prelude.Dict.{contains}
use infomesh.Prelude.Dict.Laws.{contains-insert}
use infomesh.Trust.Dmca.{Scan, TakedownNotice, TakedownManager, TakedownStore, load_rows}

-- Some notice in the list is for the URL.
unfoldable pub has_url : Text → List TakedownNotice → Bool
has_url url [] = false
has_url url (n ∷ ns) = let rest = has_url url ns in if url == n.url then true else rest

pub In-has_url :
    (url : Text) (n : TakedownNotice) (ns : List TakedownNotice)
    → In n ns
    → url ≡ n.url
    → has_url url ns ≡ true
unfolding has_url
In-has_url url n [] i h = elim i [ ]
In-has_url url n (x ∷ ns) (inl e) h =
    rw ((text_eq.same_iff url x.url).1 (h ∙ ap (λ m. m.url) e)) refl
In-has_url url n (x ∷ ns) (inr i) h = ground (arith, In-has_url url n ns i h)

pub has_url-In :
    (url : Text) (ns : List TakedownNotice)
    → has_url url ns ≡ true
    → (n : TakedownNotice) × In n ns × (url ≡ n.url)
unfolding has_url
has_url-In url [] h = cc
has_url-In url (x ∷ ns) h = elim (Bool-cases (url == x.url)) [
  | inl same ↦ (x, inl refl, (text_eq.same_iff url x.url).0 same)
  | inr other ↦ let (n, i, e) = has_url-In url ns (ground arith) in (n, inr i, e)
]

true_iff : {a b : Bool} → ((a ≡ true) ↔ (b ≡ true)) → a ≡ b
true_iff {a} {b} h = ground (arith, h)

pub has_url-scan :
    ⦃s : Scan⦄
    → (url : Text) (rows : List TakedownNotice) → has_url url (s.scan rows) ≡ has_url url rows
has_url-scan ⦃s⦄ url rows = true_iff (
  λ h.
      let (n, i, e) = has_url-In url (s.scan rows) h in
      In-has_url url n rows ((s.scan_iff n rows).0 i) e,
  λ h.
      let (n, i, e) = has_url-In url rows h in
      In-has_url url n (s.scan rows) ((s.scan_iff n rows).1 i) e,
)

-- Replacing a row by one for the same URL leaves the URLs that have a row.
pub has_url-replace :
    (url : Text) (n : TakedownNotice) (rows : List TakedownNotice)
    → ((r : TakedownNotice) → In r rows → r.notice_id ≡ n.notice_id → r.url ≡ n.url)
    → has_url url (keep (λ r. not (r.notice_id == n.notice_id)) rows ++ n ∷ [])
      ≡ (if url == n.url then true else has_url url rows)
unfolding has_url
has_url-replace url n [] h = ground arith
has_url-replace url n (r ∷ rows) h =
    let rest = has_url-replace url n rows (λ x i. h x (inr i)) in
    ground (
      arith,
      rest,
      h r (inl refl),
      text_eq.same_iff r.notice_id n.notice_id,
      text_eq.same_iff url n.url,
      text_eq.same_iff url r.url,
    )

pub In-keep_append :
    {A : Type 0} (p : A → Bool) (x n : A) (rows : List A)
    → In x (keep p rows ++ n ∷ [])
    → (x ≡ n) ⊎ In x rows
In-keep_append p x n [] (inl e) = inl e
In-keep_append p x n [] (inr i) = elim i [ ]
In-keep_append p x n (r ∷ rows) i = elim (Bool-cases (p r)) [
  | inl same ↦ ground (arith, In-keep_append p x n rows)
  | inr other ↦ ground (arith, In-keep_append p x n rows)
]

pub load_rows-store :
    ⦃s : Scan⦄
    → (db : TakedownStore) (rows : List TakedownNotice) (m : TakedownManager)
    → (load_rows db rows m).store ≡ m.store
unfolding load_rows
load_rows-store db [] m = refl
load_rows-store db (n ∷ rows) m = load_rows-store db rows _

pub contains-load_rows :
    ⦃s : Scan⦄
    → (db : TakedownStore) (rows : List TakedownNotice) (m : TakedownManager) (url : Text)
    → contains url (load_rows db rows m).url_takedowns
      ≡ (if has_url url rows then true else contains url m.url_takedowns)
unfolding load_rows has_url
contains-load_rows db [] m url = refl
contains-load_rows db (n ∷ rows) m url =
    contains-load_rows db rows _ url
    ∙ ground (arith, contains-insert n.url url n.notice_id m.url_takedowns)
