-- ===== src/Functions/Registered.antt =====
-- udf.go: the functions that a connection has when it is used, after any registrations.
use litelog.Prelude.{
  ℕ, ◌≡◌, refl, sym, ◌∙◌, ap, inl, inr, Bytes, bytes_eq, bytes_eq_iff, bytes_key, ◌==◌, ==_iff,
  true, false, ◌&&◌, Option, none, some, List, [], ◌∷◌, if◌then◌else◌, lookup, insert,
  lookup-insert, All, Bool-cases, arith,
}
use litelog.Result.{Result, ok}
use litelog.Store.{Tables}
use litelog.Pool.{Db, load_state}
use litelog.Query.Translate.{to_upper}
use litelog.Functions.{
  UdfDef, UdfRegistry, new_udf_registry, register_udf, register_function, get_udf, all_udfs,
  FunctionImpl, function_impl, install_one_udf, install_each, install_udfs, use_conn,
}

-- The registrations of a program that has opened a database file, in their order.
unfoldable pub register_all : List UdfDef → UdfRegistry × Db → UdfRegistry × Db
register_all [] state = state
register_all (def ∷ defs) state =
    register_all defs (register_function def.name def.n_args def.deterministic def.fn state)

module _ {Conn : Type 0} (create_function : Bytes → FunctionImpl → Conn → Result Conn)
    (found : Conn → Bytes → ℕ → Option FunctionImpl) where
  -- What SQLite documents of the functions that are defined on a connection: there is one for a name,
  -- whatever the case of its letters, and a number of arguments, where -1 is a number of its own, and a
  -- new one takes the place of the one with both, and of no other. Which of a name's definitions a call
  -- is answered by is left to SQLite.
  pub record IsCreateFunction : Type 0 where
    pub created :
        (name : Bytes) (impl : FunctionImpl) (conn conn' : Conn)
        → create_function name impl conn ≡ ok conn'
        → found conn' name impl.n_args ≡ some impl
    pub keeps :
        (name : Bytes) (impl : FunctionImpl) (conn conn' : Conn) (asked : Bytes) (n : ℕ)
        → create_function name impl conn ≡ ok conn'
        → (bytes_eq (to_upper name) (to_upper asked) && impl.n_args == n) ≡ false
        → found conn' asked n ≡ found conn asked n

  -- SQLite takes the definition, on every connection.
  abbrev pub Accepted : UdfDef → Type 0
  Accepted def =
      (conn : Conn) → (conn' : Conn) × (install_one_udf create_function def conn ≡ ok conn')

-- A definition has the name, or none that SQLite takes for it.
abbrev pub IsApart : Bytes → UdfDef → Type 0
IsApart name def = bytes_eq (to_upper def.name) (to_upper name) ≡ true → def.name ≡ name

-- The function of a name and a number of arguments, where a definition is registered for the name, and
-- where a connection had `before` for them.
abbrev pub expected : Option UdfDef → ℕ → Option FunctionImpl → Option FunctionImpl
expected none n before = before
expected (some def) n before = if def.n_args == n then some (function_impl def) else before

-- The last definition of the name, or else `before`.
unfoldable pub latest : List UdfDef → Bytes → Option UdfDef → Option UdfDef
latest [] name before = before
latest (def ∷ defs) name before =
    latest defs name (if bytes_eq def.name name then some def else before)

register_all-get :
    (defs : List UdfDef) (r : UdfRegistry) (db : Db) (name : Bytes)
    → get_udf (register_all defs (r, db)).0 name ≡ latest defs name (get_udf r name)
unfolding register_all register_function latest
register_all-get [] r db name = refl
register_all-get (def ∷ defs) r db name =
    register_all-get defs (register_udf def r) (record db { udfs_dirty = true }) name
    ∙ ap (latest defs name) (lookup-insert def.name name def r)

-- Entries stand under their names, and a name has one.
unfoldable IsKeyed : UdfRegistry → Type 0
IsKeyed [] = Unit {0}
IsKeyed ((name, def) ∷ r) = (def.name ≡ name) × (lookup name r ≡ none) × IsKeyed r

IsKeyed-register_udf : (def : UdfDef) (r : UdfRegistry) → IsKeyed r → IsKeyed (register_udf def r)
unfolding IsKeyed insert lookup
IsKeyed-register_udf def [] h = (refl, refl, tt)
IsKeyed-register_udf def ((name, old) ∷ r) (named, alone, h) =
    elim (Bool-cases (bytes_eq name def.name)) [
      | inl here ↦ rw here (
        refl,
        (let same : name ≡ def.name = (bytes_eq_iff name def.name).0 here in rw (sym same) alone),
        h,
      )
      | inr elsewhere ↦ rw elsewhere (
        named,
        ground (
          arith,
          lookup-insert def.name name def r,
          bytes_eq_iff name def.name,
          bytes_eq_iff def.name name,
          alone,
        ),
        IsKeyed-register_udf def r h,
      )
    ]

All-register_udf :
    (P : UdfDef → Type 0) (def : UdfDef) (r : UdfRegistry)
    → P def
    → All P (all_udfs r)
    → All P (all_udfs (register_udf def r))
unfolding insert
All-register_udf P def [] p h = (p, tt)
All-register_udf P def ((name, old) ∷ r) p (k, h) = elim (Bool-cases (bytes_eq name def.name)) [
  | inl here ↦ rw here (p, h)
  | inr elsewhere ↦ rw elsewhere (k, All-register_udf P def r p h)
]

module _ {Conn : Type 0} (create_function : Bytes → FunctionImpl → Conn → Result Conn)
    (found : Conn → Bytes → ℕ → Option FunctionImpl)
    (documented : IsCreateFunction create_function found) (asked : Bytes) where
  -- A connection on which the registry is installed, as far as the name `asked` goes.
  abbrev Installed : UdfRegistry → Conn → Conn → Type 0
  Installed r conn conn' =
      (n : ℕ) → found conn' asked n ≡ expected (get_udf r asked) n (found conn asked n)

  -- One more definition, under a name that the rest does not have.
  Installed-one :
      (name : Bytes) (def : UdfDef) (r : UdfRegistry) (conn between conn' : Conn)
      → def.name ≡ name
      → lookup name r ≡ none
      → IsApart asked def
      → install_one_udf create_function def conn ≡ ok between
      → Installed r between conn'
      → Installed ((name, def) ∷ r) conn conn'
  unfolding lookup
  Installed-one name def r conn between conn' named alone apart made rest n =
      let kept = documented.keeps def.name (function_impl def) conn between asked n made in
      elim (Bool-cases (bytes_eq name asked)) [
        | inl here ↦
            let same : name ≡ asked = (bytes_eq_iff name asked).0 here in
            let none_left : lookup asked r ≡ none = rw (sym same) alone in
            let as_between : found conn' asked n ≡ found between asked n =
              rw (sym (ap (λ d. expected d n (found between asked n)) none_left)) (rest n) in
            elim (Bool-cases (def.n_args == n)) [
              | inl fits ↦
                  let made_here =
                    documented.created def.name (function_impl def) conn between made in
                  let fits' : def.n_args ≡ n = (==_iff def.n_args n).0 fits in
                  rw (here, fits) (as_between ∙ rw (sym same, sym named, sym fits') made_here)
              | inr unlike ↦ rw (here, unlike) (as_between ∙ kept (rw unlike (ground arith)))
            ]
        | inr elsewhere ↦
            rw elsewhere (rest n ∙ ap (expected (lookup asked r) n) (kept (other_name elsewhere n)))
      ]
    where
      other_name :
          bytes_eq name asked ≡ false
          → (n : ℕ) → (bytes_eq (to_upper def.name) (to_upper asked) && def.n_args == n) ≡ false
      other_name elsewhere n = elim (Bool-cases (bytes_eq (to_upper def.name) (to_upper asked))) [
        | inl folded ↦
            let same : name ≡ asked = sym named ∙ apart folded in
            ground (arith, bytes_eq_iff name asked, same, elsewhere)
        | inr unlike ↦ rw unlike refl
      ]

  install-Installed :
      (r : UdfRegistry) (conn : Conn)
      → IsKeyed r
      → All (Accepted create_function found) (all_udfs r)
      → All (IsApart asked) (all_udfs r)
      → (conn' : Conn) × (install_udfs create_function r conn ≡ ok conn') × Installed r conn conn'
  unfolding install_each IsKeyed lookup
  install-Installed [] conn h k as_apart = (conn, refl, λ n. refl)
  install-Installed ((name, def) ∷ r) conn (named, alone, h) (accepted, k) (apart, as_apart) =
      let (between, made) = accepted conn in
      let (conn', installed, rest) = install-Installed r between h k as_apart in
      (
        conn',
        rw made installed,
        Installed-one name def r conn between conn' named alone apart made rest,
      )

  -- The state after any registrations.
  Prepared : UdfRegistry × Db → Conn → Type 0
  Prepared (r, db) conn =
      (conn' : Conn) × (use_conn create_function (r, db) conn ≡ ok conn') × Installed r conn conn'

  use_conn-Prepared :
      (defs : List UdfDef) (r : UdfRegistry) (db : Db) (conn : Conn)
      → IsKeyed r
      → All (Accepted create_function found) (all_udfs r)
      → All (IsApart asked) (all_udfs r)
      → All (Accepted create_function found) defs
      → All (IsApart asked) defs
      → (db.udfs_dirty ≡ false → r ≡ [])
      → Prepared (register_all defs (r, db)) conn
  unfolding Prepared register_all use_conn register_function
  use_conn-Prepared [] r db conn keyed accepted apart _ _ clean = elim (Bool-cases db.udfs_dirty) [
    | inl dirty ↦ rw dirty (install-Installed r conn keyed accepted apart)
    | inr unused ↦ rw (unused, clean unused) (conn, refl, λ n. unfold lookup in refl)
  ]
  use_conn-Prepared (def ∷ defs) r db conn keyed accepted apart (a, rest) (b, others) clean =
      use_conn-Prepared defs (register_udf def r) (record db { udfs_dirty = true }) conn
        (IsKeyed-register_udf def r keyed)
        (All-register_udf (Accepted create_function found) def r a accepted)
        (All-register_udf (IsApart asked) def r b apart) rest others (λ absurd. cc)

  -- A connection that is used has, for a name that is registered, the function that was registered
  -- last, with the number of arguments of that registration; for another number of arguments, and for a
  -- name that is not registered, it has what it had before, so that a function of the name with another
  -- number of arguments stays. No registered name may differ from the one that is asked for only in the
  -- case of its letters. SQLite has to take every definition, and CreateFunction to behave as
  -- documented.
  pub use_conn-get :
      (t : Tables) (history_path : Bytes) (defs : List UdfDef) (conn : Conn)
      → All (Accepted create_function found) defs
      → All (IsApart asked) defs
      → (conn' : Conn) × (use_conn create_function
            (register_all defs (new_udf_registry, load_state t history_path))
            conn
          ≡ ok conn')
        × ((n : ℕ) → found conn' asked n ≡ expected (latest defs asked none) n (found conn asked n))
  unfolding Prepared load_state lookup
  use_conn-get t history_path defs conn accepted apart =
      let db = load_state t history_path in
      let (conn', used, installed) =
        use_conn-Prepared defs new_udf_registry db conn (unfold IsKeyed in tt) tt tt accepted apart
          (λ clean. refl) in
      (conn', used, λ n. rw (sym (register_all-get defs new_udf_registry db asked)) (installed n))
