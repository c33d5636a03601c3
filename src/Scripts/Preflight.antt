-- ===== src/Scripts/Preflight.antt =====
-- scripts/preflight_upstream.py: the check of Omega's address before a start.
use sgraph_omega_connector.Base.{
  ℕ, Bool, true, not, ◌&&◌, ◌||◌, [], ◌∷◌, ◌++◌, Option, some, none, ◌≡◌, refl, ◌↔◌, if◌then◌else◌,
  arith,
}
use sgraph_omega_connector.Text.{
  Text, codes, strip, truthy, starts_with, NoSpace, is_space, strip-NoSpace,
}
use sgraph_omega_connector.Scripts.Probe.{contains}

-- `add_argument(..., action="store_true", default=default)`
abbrev pub store_true : Bool → Bool → Bool
store_true default is_given = default || is_given

-- `(args.omega_base_url or os.getenv("OMEGA_BASE_URL", "")).strip()`
unfoldable pub preflight_url : Option Text → Option Text → Text
preflight_url (some (c ∷ s)) env = strip (c ∷ s)
preflight_url _ none = strip []
preflight_url _ (some s) = strip s

-- The exit code of `main`.
unfoldable pub preflight : Option Text → Bool → Text → Option Text → ℕ
preflight omega_base_url require_https require_prefix env =
    let url = preflight_url omega_base_url env in
    if not (truthy url)
    then 1
    else if store_true true require_https && not (starts_with (codes "https://") url)
    then 1
    else if truthy require_prefix && not (contains require_prefix url)
    then 1
    else 0

https-truthy : (url : Text) → starts_with (codes "https://") url ≡ true → truthy url ≡ true
unfolding starts_with
https-truthy [] h = absurd (ground (arith, h))
https-truthy (c ∷ s) h = refl

https_omega-NoSpace : (rest : Text) → NoSpace rest → NoSpace (codes "https://omega" ++ rest)
unfolding is_space
https_omega-NoSpace rest h =
    let p = refl in (p, (p, (p, (p, (p, (p, (p, (p, (p, (p, (p, (p, (p, h)))))))))))))

-- With or without its flag, the check passes exactly the addresses that begin with `https://` and
-- hold the wanted prefix anywhere, from the argument or else from the environment.
pub preflight-eq-zero :
    (omega_base_url : Option Text) (require_https : Bool) (c : ℕ) (prefix : Text)
    (env : Option Text)
    → let url = preflight_url omega_base_url env in
      (preflight omega_base_url require_https (c ∷ prefix) env ≡ 0)
      ↔ ((starts_with (codes "https://") url ≡ true) × (contains (c ∷ prefix) url ≡ true))
unfolding preflight
preflight-eq-zero omega_base_url require_https c prefix env =
    let url = preflight_url omega_base_url env in ground (arith, https-truthy url)

-- The address of a host whose name begins with `omega` passes without the path `/omega`: the
-- prefix is found behind the scheme, whatever follows.
pub preflight-omega_host :
    (rest : Text) (require_https : Bool)
    → NoSpace rest
    → preflight none require_https (codes "/omega") (some (codes "https://omega" ++ rest)) ≡ 0
unfolding preflight preflight_url starts_with contains
preflight-omega_host rest require_https plain =
    rw (strip-NoSpace (codes "https://omega" ++ rest) (https_omega-NoSpace rest plain)) refl
