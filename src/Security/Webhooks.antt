-- ===== src/Security/Webhooks.antt =====
-- infomesh/security.py with the registry of infomesh/mcp/session.py, which calls `validate_url`.
use infomesh.Prelude.{ℕ, ◌≡◌, refl, Bool, true, false, List, [], ◌∷◌, Text, All}
use infomesh.Prelude.Result.{Result, ok, err}
use infomesh.Security.{UrlTools, UrlError, validate_url}
use infomesh.Security.Accepted.{IsPublic, validate_url_iff}
use infomesh.Mcp.Session.Webhooks.{Event, apply_all, webhooks_kept}

abbrev pub accepts : Result UrlError Text → Bool
accepts (ok u) = true
accepts (err e) = false

-- `register` goes on where `validate_url(url)` does not raise.
unfoldable pub is_safe : ⦃t : UrlTools⦄ → Text → Bool
is_safe url = accepts (validate_url url false)

is_safe-IsPublic : ⦃t : UrlTools⦄ → (url : Text) → is_safe url ≡ true → IsPublic url false
unfolding is_safe
is_safe-IsPublic url h = go (validate_url url false) refl h
  where
    go :
        (r : Result UrlError Text)
        → validate_url url false ≡ r
        → accepts r ≡ true
        → IsPublic url false
    go (ok u) e h = ((validate_url_iff url false u).0 e).1
    go (err x) e h = cc

All-IsPublic :
    ⦃t : UrlTools⦄
    → (urls : List Text) → All (λ url. is_safe url ≡ true) urls
    → All (λ url. IsPublic url false) urls
All-IsPublic [] h = tt
All-IsPublic (x ∷ xs) h = (is_safe-IsPublic x h.0, All-IsPublic xs h.1)

-- Whatever URLs are registered and unregistered, every URL in the registry has the scheme http or
-- https, and a host name that is no blocked name and no blocked address.
pub webhooks-IsPublic :
    ⦃t : UrlTools⦄
    → (max_registrations : ℕ) (events : List Event)
    → All
        (λ url. IsPublic url false)
        (apply_all is_safe
          (record { urls = []; max_registrations = max_registrations })
          events).urls
webhooks-IsPublic max_registrations events =
    All-IsPublic _ (webhooks_kept is_safe max_registrations events).2
