-- ===== src/JsonMap/Laws.antt =====
-- What `get` and `mutate` of mapstore.go do to the map under their key and to everything else.
use lib_agent_oauth.Prelude.{
  Bool-cases, inl, inr, String, ◌≡◌, ◌≢◌, refl, sym, ap, subst, ◌∙◌, Bool, false, Option, some,
  none, ◌==◌, inl, inr, arith, ne_test, eq_refl, if◌then◌else◌,
}
use lib_agent_oauth.Map
use lib_agent_oauth.Map.{Map, lookup-delete_if, lookup-any_value}
use lib_agent_oauth.Json.Codec.{Codec, encode_map, decode_map-encode}
use lib_agent_oauth.Exec.{Result, ok, err, bind-ok, pure-ok, pure}
use lib_agent_oauth.Env.{Env, Stored, document}
use lib_agent_oauth.Model.{World}
use lib_agent_oauth.Store.{IsLawful}
use lib_agent_oauth.JsonMap.{
  store_get, store_set, unmarshal, Change, drop_where, read_map, load, save, get, commit, mutate,
}

-- Two reads of one map agree.
pub same_map : {V : Type 0} {r : Result (Map V)} {m n : Map V} → r ≡ ok m → r ≡ ok n → m ≡ n
same_map p q = ground arith

module _ ⦃env : Env⦄ where
  -- What the secret store holds under a key.
  abbrev pub stored : World env.S → String → Result (Option Stored)
  stored w key = env.store.get w.store key

  -- The map under a key, or the error that reading it gives.
  unfoldable pub reads : {V : Type 0} → Codec V → String → World env.S → Result (Map V)
  reads c key w = elim (stored w key) [ ok v ↦ read_map c v | err e ↦ err e ]

  -- The states differ at most in what the store holds under `key`.
  pub record Writes (key : String) (w w' : World env.S) : Type 0 where
    pub frame : (j : String) → key ≢ j → stored w' j ≡ stored w j
    pub codes : w'.codes ≡ w.codes
    pub drawn : w'.drawn ≡ w.drawn
    pub now : w'.now ≡ w.now
    pub events : w'.events ≡ w.events

  pub Writes-refl : (key : String) (w : World env.S) → Writes key w w
  Writes-refl key w = record {
    frame = λ j _. refl;
    codes = refl;
    drawn = refl;
    now = refl;
    events = refl;
  }

  -- What a key reads as depends on what is stored under it.
  pub reads-stored :
      {V : Type 0} (c : Codec V) (key : String) (w w' : World env.S)
      → stored w' key ≡ stored w key
      → reads c key w' ≡ reads c key w
  unfolding reads
  reads-stored c key w w' h = rw (h, reads)

  -- A map under another key reads as before.
  pub reads-Writes :
      {V : Type 0} (c : Codec V) {key : String} (j : String) {w w' : World env.S}
      → Writes key w w'
      → key ≢ j
      → reads c j w' ≡ reads c j w
  reads-Writes c j {w} {w'} h ne = reads-stored c j w w' (h.frame j ne)

  module _ (lawful : IsLawful env.store) where
    -- A successful write is read back.
    pub set-stored :
        (key j : String) (v : Stored) (w w' : World env.S)
        → store_set key v w ≡ (ok tt, w')
        → stored w' j ≡ (if key == j then ok (some v) else stored w j)
    unfolding store_set
    set-stored key j v w w' h = lawful.get-set w.store w'.store key j v (ground arith)

    pub set-Writes :
        (key : String) (v : Stored) (w w' : World env.S)
        → store_set key v w ≡ (ok tt, w')
        → Writes key w w'
    unfolding store_set
    set-Writes key v w w' h = record {
      frame = λ j ne. rw (set-stored key j v w w' h, ne_test key j ne);
      codes = ground arith;
      drawn = ground arith;
      now = ground arith;
      events = ground arith;
    }

  abbrev pub after_of : {A V : Type 0} → Change A V → Map V → Map V
  after_of (a, none) m = m
  after_of (a, some m') m = m'

  -- What the deleting loop leaves under a key.
  pub lookup-drop_where :
      {V : Type 0} (p : V → Bool) (k : String) (m : Map V)
      → Map.lookup k (after_of (drop_where p m) m) ≡ Map.keep_unless p (Map.lookup k m)
  lookup-drop_where {V} p k m = elim (Bool-cases (Map.any_value p m)) [
    | inl e ↦ rw e (lookup-delete_if p k m)
    | inr e ↦ rw e (untouched e (Map.lookup k m) refl)
  ]
    where
      untouched :
          Map.any_value p m ≡ false
          → (o : Option V) → Map.lookup k m ≡ o
          → Map.lookup k m ≡ Map.keep_unless p o
      untouched e none h = h
      untouched e (some v) h = rw (lookup-any_value p k v m e h) h

  module _ {V : Type 0} (c : Codec V) where
    -- A successful `mutate` with result `a`.
    pub record Mutated {A : Type 0} (key : String) (f : Map V → Change A V) (w : World env.S)
        (a : A) (w' : World env.S) : Type 0 where
      pub before : Map V
      pub held : reads c key w ≡ ok before
      pub value : (f before).0 ≡ a
      pub holds : reads c key w' ≡ ok (after_of (f before) before)
      pub writes : Writes key w w'

    pub load-reads : (key : String) (w : World env.S) → load c key w ≡ (reads c key w, w)
    unfolding load reads store_get
    load-reads key w = ground arith

    read_map-document : (m : Map V) → read_map c (some (document (encode_map c m))) ≡ ok m
    unfolding read_map unmarshal
    read_map-document m = ground (arith, decode_map-encode c m)

    -- Loading succeeds with the map that is read, and changes nothing.
    pub load-ok :
        (key : String) (w w' : World env.S) {m : Map V}
        → load c key w ≡ (ok m, w')
        → (reads c key w ≡ ok m) × (w ≡ w')
    load-ok key w w' h = let e = sym (load-reads key w) ∙ h in (ap (λ r. r.0) e, ap (λ r. r.1) e)

    pub get-reads :
        (key k : String) (w : World env.S)
        → get c key k w ≡ (elim (reads c key w) [ ok m ↦ ok (Map.lookup k m) | err e ↦ err e ], w)
    unfolding get
    get-reads key k w = rw load-reads (ground arith)

    -- Reading a key of a map that is held.
    pub get-of-reads :
        (key k : String) (w : World env.S) {m : Map V}
        → reads c key w ≡ ok m
        → get c key k w ≡ (ok (Map.lookup k m), w)
    unfolding get
    get-of-reads key k w h = rw (load-reads key w) (rw h)

    -- A successful `get` returns what the map has, and changes nothing.
    pub get-ok :
        (key k : String) (w w' : World env.S) {o : Option V}
        → get c key k w ≡ (ok o, w')
        → (m : Map V) × (reads c key w ≡ ok m) × (Map.lookup k m ≡ o) × (w ≡ w')
    unfolding get
    get-ok key k w w' h =
        let (m, v, p, q) = bind-ok _ (load c key) w w' h in
        let (value, same') = pure-ok _ v w' q in
        let (held, same) = load-ok key w v p in (m, held, value, same ∙ same')

    module _ (lawful : IsLawful env.store) where
      -- A successful `save` is read back, and changes nothing else.
      pub save-ok :
          (key : String) (m : Map V) (w w' : World env.S)
          → save c key m w ≡ (ok tt, w')
          → (reads c key w' ≡ ok m) × Writes key w w'
      unfolding save reads
      save-ok key m w w' h = (
        rw (set-stored lawful key key _ w w' h, reads) (rw eq_refl (read_map-document m)),
        set-Writes lawful key _ w w' h,
      )

      commit-ok :
          {A : Type 0} (key : String) (m : Map V) (ch : Change A V) (w w' : World env.S) {a : A}
          → reads c key w ≡ ok m
          → commit c key ch w ≡ (ok a, w')
          → (ch.0 ≡ a) × (reads c key w' ≡ ok (after_of ch m)) × Writes key w w'
      unfolding commit
      commit-ok key m (a, none) w w' e h =
          let same : w ≡ w' = ap (λ (r : Result _ × World env.S). r.1) h in
          (ground arith, rw (← same) e, rw (← same) (Writes-refl key w))
      commit-ok key m (a, some m') w w' e h =
          let (u, v, saved, last) = bind-ok (λ _. pure a) (save c key m') w w' h in
          let same : v ≡ w' = ap (λ (r : Result _ × World env.S). r.1) last in
          let (held, writes) = save-ok key m' w v saved in
          (ground arith, rw (← same) held, rw (← same) writes)

      pub mutate-ok :
          {A : Type 0} (key : String) (f : Map V → Change A V) (w w' : World env.S) {a : A}
          → mutate c key f w ≡ (ok a, w')
          → Mutated key f w a w'
      unfolding mutate
      mutate-ok key f w w' {a} h =
          let (m, v, loaded, committed) = bind-ok (λ m. commit c key (f m)) (load c key) w w' h in
          let (held, same) = load-ok key w v loaded in
          let (value, holds, writes) =
            commit-ok key m (f m) w w' held
              (subst (λ u. commit c key (f m) u ≡ (ok a, w')) (sym same) committed) in
          record { before = m; held = held; value = value; holds = holds; writes = writes }

      -- A closure that reports no change leaves the state as it is.
      pub mutate-unchanged :
          {A : Type 0} (key : String) (f : Map V → Change A V) (w : World env.S) {m : Map V} {a : A}
          → reads c key w ≡ ok m
          → f m ≡ (a, none)
          → mutate c key f w ≡ (ok a, w)
      unfolding mutate commit
      mutate-unchanged key f w {a} held e =
          rw (load-reads key w) (rw held (subst (λ x. commit c key x w ≡ (ok a, w)) (sym e) refl))

    -- A map that is read and changed is written, if the store can be written.
    pub mutate-saves :
        {A : Type 0} (key : String) (f : Map V → Change A V) (w : World env.S) {m m' : Map V}
        {a : A}
        → reads c key w ≡ ok m
        → f m ≡ (a, some m')
        → ((v : Stored) → (env.store.set w.store key v).0 ≡ ok tt)
        → (w' : World env.S) × (mutate c key f w ≡ (ok a, w'))
    unfolding mutate commit save store_set
    mutate-saves key f w {m} {m'} {a} held e writes = (
      record w { store = (env.store.set w.store key (document (encode_map c m'))).1 },
      rw (load-reads key w) (
          rw held (
            subst
              (λ x. commit c key x w ≡ (
                ok a,
                record w { store = (env.store.set w.store key (document (encode_map c m'))).1 },
              ))
              (sym e) (rw (writes (document (encode_map c m'))) refl))),
    )
