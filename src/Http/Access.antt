-- ===== src/Http/Access.antt =====
-- Who passes the token check of http_api.py.
use atv_homekit_remote.Prelude.{
  ◌≡◌, ◌≢◌, refl, ◌↔◌, ◌⊎◌, inl, inr, ◌≤◌, true, false, Option, none, some, [], ◌∷◌, ◌++◌, arith,
  if◌then◌else◌, either, Bool-cases, length, ok, err,
}
use atv_homekit_remote.Utf8.{Text}
use atv_homekit_remote.HdsCodec.Value.{list_eq}
use atv_homekit_remote.HdsCodec.Exact.{list_eq→eq}
use atv_homekit_remote.Http.Server.{
  Platform, Settings, is_loopback_bind, is_short, is_absent, new_server, Access, granted,
  unauthorized, failed, healthz_path, bearer, is_ascii, compare_digest, or_empty, authorize,
}

list_eq_refl : (t : Text) → list_eq t t ≡ true
unfolding list_eq
list_eq_refl [] = refl
list_eq_refl (c ∷ cs) = ground (arith, list_eq_refl cs)

-- The request's header is the token's, in ASCII.
abbrev pub Carries : Text → Option Text → Type 0
Carries token header = (or_empty header ≡ bearer ++ token) × (is_ascii (or_empty header) ≡ true)

digest_granted :
    (a b : Text)
    → elim (compare_digest a b) [
      | err e ↦ failed e
      | ok same ↦ if same then granted else unauthorized
    ]
      ≡ granted
    → (a ≡ b) × (is_ascii a ≡ true)
unfolding compare_digest
digest_granted a b e = elim (Bool-cases (is_ascii a)) [
  | inr foreign ↦ absurd (ground arith)
  | inl plain ↦ elim (Bool-cases (list_eq a b)) [
    | inl same ↦ (list_eq→eq a b same, plain)
    | inr other ↦ absurd (ground arith)
  ]
]

digest_same :
    (a b : Text)
    → a ≡ b
    → is_ascii a ≡ true
    → elim (compare_digest a b) [
      | err e ↦ failed e
      | ok same ↦ if same then granted else unauthorized
    ]
      ≡ granted
unfolding compare_digest
digest_same a b e plain = rw (← e, plain, list_eq_refl a) refl

granted_for :
    (token path : Text) (header : Option Text)
    → authorize (some token) path header ≡ granted
    → (path ≡ healthz_path) ⊎ Carries token header
unfolding authorize
granted_for token path header e = elim (Bool-cases (list_eq path healthz_path)) [
  | inl same ↦ inl (list_eq→eq path healthz_path same)
  | inr other ↦ inr (digest_granted (or_empty header) (bearer ++ token) (rw other at e))
]

grants :
    (token path : Text) (header : Option Text)
    → (path ≡ healthz_path) ⊎ Carries token header
    → authorize (some token) path header ≡ granted
unfolding authorize
grants token path header (inl e) = rw e refl
grants token path header (inr c) =
    either (λ (a : Access). a ≡ granted) (list_eq path healthz_path) (λ e. refl)
      (λ e. digest_same (or_empty header) (bearer ++ token) c.0 c.1)

-- With a token, a request passes exactly if it is for /healthz or its Authorization header is
-- "Bearer " and the token, in ASCII; without one every request passes.
pub authorize_iff :
    (path : Text) (header : Option Text)
    → (authorize none path header ≡ granted)
      × ((token : Text)
          → (authorize (some token) path header ≡ granted)
            ↔ ((path ≡ healthz_path) ⊎ Carries token header))
unfolding authorize
authorize_iff path header =
    (refl, λ token. (granted_for token path header, grants token path header))

module _ (pf : Platform) where
  -- What the settings of a server that is built are like.
  record IsGuarded (s : Settings pf) (built : Settings pf) : Type 0 where
    same : built ≡ s
    long : is_short pf s.token ≡ false
    secured : is_loopback_bind pf s.host ≡ false → is_absent pf s.token ≡ false

  new_server-IsGuarded : (s built : Settings pf) → new_server pf s ≡ ok built → IsGuarded s built
  unfolding new_server
  new_server-IsGuarded s built e = record {
    same = ground arith;
    long = ground arith;
    secured = λ away. ground arith;
  }

  bearer_of :
      (token : Option Text) (path : Text) (header : Option Text)
      → is_short pf token ≡ false
      → is_absent pf token ≡ false
      → authorize token path header ≡ granted
      → path ≢ healthz_path
      → (t : Text) × (token ≡ some t) × Carries t header × (16 ≤ length t)
  bearer_of none path header long there e other = cc
  bearer_of (some t) path header long there e other =
      (t, refl, passed (granted_for t path header e), ground arith)
    where
      passed : (path ≡ healthz_path) ⊎ Carries t header → Carries t header
      passed (inl health) = absurd (other health)
      passed (inr c) = c

  -- A server that listens beyond the loopback interface answers nothing but /healthz to a request
  -- without its token, which has 16 characters at least.
  pub new_server-authorize :
      (s built : Settings pf) (path : Text) (header : Option Text)
      → new_server pf s ≡ ok built
      → is_loopback_bind pf s.host ≡ false
      → authorize built.token path header ≡ granted
      → path ≢ healthz_path
      → (token : Text) × (built.token ≡ some token) × Carries token header × (16 ≤ length token)
  new_server-authorize s built path header e away passed other =
      let h = new_server-IsGuarded s built e in
      rw h.same (bearer_of s.token path header h.long (h.secured away) (rw h.same at passed) other)
