-- ===== src/Mcp/Session/Webhooks.antt =====
-- infomesh/mcp/session.py, `WebhookRegistry`.
use infomesh.Prelude.{
  ℕ, ◌≤◌, ◌≡◌, refl, Bool, true, false, List, [], ◌∷◌, ◌++◌, arith, leb, if◌then◌else◌, length,
  length-append, Text, text_eq, text_beq_iff, ◌==◌, Bool-cases, inl, inr, All, All-append,
}
use infomesh.Mcp.Session.{WebhookRegistry, register, unregister, member, remove_first}

pub data Event : Type 0 where
  registered unregistered : Text → Event

module _ (is_safe : Text → Bool) where
  unfoldable pub apply : WebhookRegistry → Event → WebhookRegistry
  apply w (registered url) = (register is_safe w url).1
  apply w (unregistered url) = (unregister w url).1

  unfoldable pub apply_all : WebhookRegistry → List Event → WebhookRegistry
  apply_all w [] = w
  apply_all w (e ∷ rest) = apply_all (apply w e) rest

-- No URL stands twice.
abbrev pub IsDistinct : List Text → Type 0
IsDistinct [] = Unit
IsDistinct (x ∷ xs) = (member x xs ≡ false) × IsDistinct xs

abbrev pub Safe : (Text → Bool) → Text → Type 0
Safe is_safe url = is_safe url ≡ true

pub record IsRegistry (is_safe : Text → Bool) (max_registrations : ℕ) (w : WebhookRegistry)
    : Type 0 where
  pub limit : w.max_registrations ≡ max_registrations
  pub bounded : length w.urls ≤ max_registrations
  pub distinct : IsDistinct w.urls
  pub safe : All (Safe is_safe) w.urls

member-append :
    (x y : Text) (xs : List Text) → member x (xs ++ y ∷ []) ≡ (if member x xs then true else x == y)
unfolding member
member-append x y [] = ground arith
member-append x y (z ∷ xs) = ground (arith, member-append x y xs)

IsDistinct-append :
    (xs : List Text) (y : Text) → member y xs ≡ false → IsDistinct xs → IsDistinct (xs ++ y ∷ [])
unfolding member
IsDistinct-append [] y h d = (refl, tt)
IsDistinct-append (x ∷ xs) y h d =
    ground (arith, member-append x y xs, text_beq_iff x y, text_beq_iff y x, IsDistinct-append xs y)

member-remove_first :
    (x y : Text) (xs : List Text) → member x xs ≡ false → member x (remove_first y xs) ≡ false
unfolding member remove_first
member-remove_first x y [] h = refl
member-remove_first x y (z ∷ xs) h = ground (arith, member-remove_first x y xs)

IsDistinct-remove_first :
    (y : Text) (xs : List Text) → IsDistinct xs → IsDistinct (remove_first y xs)
unfolding remove_first
IsDistinct-remove_first y [] d = tt
IsDistinct-remove_first y (x ∷ xs) d =
    ground (arith, member-remove_first x y xs, IsDistinct-remove_first y xs)

length-remove_first-le : (y : Text) (xs : List Text) → length (remove_first y xs) ≤ length xs
unfolding remove_first
length-remove_first-le y [] = omega arith
length-remove_first-le y (x ∷ xs) = ground (arith, length-remove_first-le y xs)

All-remove_first :
    (P : Text → Type 0) (y : Text) (xs : List Text) → All P xs → All P (remove_first y xs)
unfolding remove_first
All-remove_first P y [] a = tt
All-remove_first P y (x ∷ xs) a = elim (Bool-cases (y == x)) [
  | inl same ↦ rw same a.1
  | inr other ↦ rw other (a.0, All-remove_first P y xs a.1)
]

module _ (is_safe : Text → Bool) (max_registrations : ℕ) where
  register-IsRegistry :
      (w : WebhookRegistry) (url : Text)
      → IsRegistry is_safe max_registrations w
      → IsRegistry is_safe max_registrations (register is_safe w url).1
  unfolding register
  register-IsRegistry w url r = elim (Bool-cases (is_safe url)) [
    | inr unsafe ↦ rw unsafe r
    | inl ok_url ↦ rw ok_url (elim (Bool-cases (member url w.urls)) [
      | inl there ↦ rw there r
      | inr new ↦ rw new (elim (Bool-cases (leb w.max_registrations (length w.urls))) [
        | inl full ↦ rw full r
        | inr room ↦ rw room (record {
          limit = r.limit;
          bounded = ground (arith, length-append w.urls (url ∷ []), r.limit);
          distinct = IsDistinct-append w.urls url new r.distinct;
          safe = All-append (Safe is_safe) w.urls (url ∷ []) r.safe (ok_url, tt);
        })
      ])
    ])
  ]

  unregister-IsRegistry :
      (w : WebhookRegistry) (url : Text)
      → IsRegistry is_safe max_registrations w
      → IsRegistry is_safe max_registrations (unregister w url).1
  unfolding unregister
  unregister-IsRegistry w url r = elim (Bool-cases (member url w.urls)) [
    | inr missing ↦ rw missing r
    | inl there ↦ rw there (record {
      limit = r.limit;
      bounded = omega (arith, length-remove_first-le url w.urls, r.bounded);
      distinct = IsDistinct-remove_first url w.urls r.distinct;
      safe = All-remove_first (Safe is_safe) url w.urls r.safe;
    })
  ]

  all-IsRegistry :
      (w : WebhookRegistry) (events : List Event)
      → IsRegistry is_safe max_registrations w
      → IsRegistry is_safe max_registrations (apply_all is_safe w events)
  unfolding apply_all apply
  all-IsRegistry w [] r = r
  all-IsRegistry w (registered url ∷ rest) r =
      all-IsRegistry (register is_safe w url).1 rest (register-IsRegistry w url r)
  all-IsRegistry w (unregistered url ∷ rest) r =
      all-IsRegistry (unregister w url).1 rest (unregister-IsRegistry w url r)

  -- Whatever URLs are registered and unregistered, the registry holds at most `max_registrations` URLs,
  -- none of them twice, and only URLs that passed the check against forged requests.
  pub webhooks_kept :
      (events : List Event)
      → let w =
          apply_all is_safe (record { urls = []; max_registrations = max_registrations }) events in
        (length w.urls ≤ max_registrations)
        × IsDistinct w.urls
        × All (λ url. is_safe url ≡ true) w.urls
  webhooks_kept events =
      let r =
        all-IsRegistry (record { urls = []; max_registrations = max_registrations }) events
          (record { limit = refl; bounded = omega arith; distinct = tt; safe = tt }) in
      (r.bounded, r.distinct, r.safe)
