-- ===== src/Config/Consistent.antt =====
-- What `Validate` has established of a configuration that it accepts.
use llmgateway.Prelude.{
  ◌≡◌, ◌≢◌, refl, Bool, true, false, List, [], ◌∷◌, String, any, All, In, arith, eq_iff, ne_str_eq,
}
use llmgateway.Config.Validate.{
  BackendConfig, WorkerConfig, ConfigError, Validated, valid, invalid, ◌>>=◌, refuse_if, is_none,
  has, check_backends, check_workers,
}

module _ {A B : Type 0} where
  pub bind-valid :
      (x : Validated A) (f : A → Validated B) (b : B)
      → (x >>= f) ≡ valid b
      → (a : A) × (x ≡ valid a) × (f a ≡ valid b)
  unfolding ◌>>=◌
  bind-valid (valid a) f b h = (a, refl, h)
  bind-valid (invalid e) f b h = cc

-- What follows a test that let the value through.
pub refuse_if-valid :
    {B : Type 0} (test : Bool) (e : ConfigError) (f : Unit → Validated B) (b : B)
    → (refuse_if test e >>= f) ≡ valid b
    → (test ≡ false) × (f tt ≡ valid b)
unfolding ◌>>=◌ refuse_if
refuse_if-valid true e f b h = cc
refuse_if-valid false e f b h = (refl, h)

pub is_none-false : {A : Type 0} (xs : List A) → is_none xs ≡ false → xs ≢ []
unfolding is_none
is_none-false [] h = cc
is_none-false (x ∷ xs) h = λ e. cc

pub has-In : (names : List String) (name : String) → has names name ≡ true → In name names
unfolding has any
has-In [] name h = cc
has-In (n ∷ names) name h = ground (arith, eq_iff n name, has-In names name)

-- A backend that can be reached and serves a model.
pub record IsBackend (b : BackendConfig) : Type 0 where
  pub named : b.id ≢ ""
  pub reachable : b.base_url ≢ ""
  pub serving : b.models ≢ []

pub check_backends-IsBackend :
    (bs : List BackendConfig) → check_backends bs ≡ valid tt → All IsBackend bs
unfolding check_backends
check_backends-IsBackend [] h = tt
check_backends-IsBackend (b ∷ bs) h =
    let (e1, h1) = refuse_if-valid _ _ _ tt h in
    let (e2, h2) = refuse_if-valid _ _ _ tt h1 in
    let (e3, h3) = refuse_if-valid _ _ _ tt h2 in
    (
      record {
        named = ne_str_eq b.id "" e1;
        reachable = ne_str_eq b.base_url "" e2;
        serving = is_none-false b.models e3;
      },
      check_backends-IsBackend bs h3,
    )

-- No two workers have one id.
abbrev pub AreDistinct : List WorkerConfig → Type 0
AreDistinct [] = Unit
AreDistinct (w ∷ ws) = All (λ (v : WorkerConfig). w.id ≢ v.id) ws × AreDistinct ws

abbrev pub IsFresh : List String → WorkerConfig → Type 0
IsFresh ids w = has ids w.id ≡ false

abbrev pub IsNamed : WorkerConfig → Type 0
IsNamed w = (w.id ≢ "") × (w.model ≢ "")

weaken :
    (id : String) (ids : List String) (ws : List WorkerConfig)
    → All (IsFresh (id ∷ ids)) ws
    → All (λ (v : WorkerConfig). id ≢ v.id) ws × All (IsFresh ids) ws
unfolding has any
weaken id ids [] h = (tt, tt)
weaken id ids (w ∷ ws) (f, h) =
    let (a, b) = weaken id ids ws h in ((ne_str_eq id w.id (ground arith), a), (ground arith, b))

pub check_workers-AreDistinct :
    (ids : List String) (ws : List WorkerConfig)
    → check_workers ids ws ≡ valid tt
    → All IsNamed ws × AreDistinct ws × All (IsFresh ids) ws
unfolding check_workers
check_workers-AreDistinct ids [] h = (tt, tt, tt)
check_workers-AreDistinct ids (w ∷ ws) h =
    let (e1, h1) = refuse_if-valid _ _ _ tt h in
    let (e2, h2) = refuse_if-valid _ _ _ tt h1 in
    let (e3, h3) = refuse_if-valid _ _ _ tt h2 in
    let (named, distinct, fresh) = check_workers-AreDistinct (w.id ∷ ids) ws h3 in
    let (apart, fresh') = weaken w.id ids ws fresh in
    (((ne_str_eq w.id "" e1, ne_str_eq w.model "" e2), named), (apart, distinct), (e3, fresh'))
