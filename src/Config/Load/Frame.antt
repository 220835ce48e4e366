-- ===== src/Config/Load/Frame.antt =====
-- What a step of the loop of Config/Load may do to the configuration, whatever its outcome.
use nonsense.Base.{
  ℕ, ◌+◌, ◌≤◌, String, ◌≡◌, inl, inr, ◌∙◌, sym, true, false, Option, none, some, arith, str_eq,
  eq_iff, Bool-cases, Option-cases,
}
use nonsense.Json.{JsonLib}
use nonsense.Config.Validate.{get, set_network}
use nonsense.Config.Checks.{netns_key}
use nonsense.Config.Paths.{get_of_find, find-insert_self, find-insert_ne}
use nonsense.Config.Load.{keys}
use nonsense.Config.Load.Steps.{left, left-add_key, has_key-assoc}

module _ (json : JsonLib) where
  open json use {
    Value, string, is_object, is_null, find, is_object-null, null_of_is_null, find-other, insert,
    items, find-insert, find-items, is_object-insert, items-insert,
  }

  abbrev unclaimed : Option Value → ℕ
  unclaimed none = 1
  unclaimed (some x) = 0

  -- How often the loop may go on: the keys in front of the iterator, and the one to come.
  abbrev pub ahead : Option String → Value → ℕ
  ahead at r = left at (keys json r) + unclaimed (find r netns_key)

  -- A role that is text in the second component is the role of the first one.
  abbrev pub SameRole : Value → Value → Type 0
  SameRole n n' = (s : String) → find n' "role" ≡ some (string s) → find n "role" ≡ some (string s)

  pub record Frame (r r' : Value) : Type 0 where
    pub object_ : is_object r' ≡ true
    pub fewer : (at : Option String) → ahead at r' ≤ ahead at r
    pub objects :
        (un : String) (e : Value)
        → find r un ≡ some e
        → is_object e ≡ true
        → (e' : Value) × (find r' un ≡ some e') × (is_object e' ≡ true)
    pub roles :
        (un : String) (e n : Value)
        → find r un ≡ some e
        → find e "network" ≡ some n
        → is_object n ≡ true
        → (e' n' : Value) × (find r' un ≡ some e')
          × (find e' "network" ≡ some n')
          × (is_object n' ≡ true)
          × SameRole n n'

  pub Frame-refl : (r : Value) → is_object r ≡ true → Frame r r
  Frame-refl r o = record {
    object_ = o;
    fewer = λ at. omega arith;
    objects = λ un e f g. (e, f, g);
    roles = λ un e n f g h. (e, n, f, g, h, λ s k. k);
  }

  pub Frame-trans : (r s t : Value) → Frame r s → Frame s t → Frame r t
  Frame-trans r s t a b = record {
    object_ = b.object_;
    fewer = λ at. omega (arith, a.fewer at, b.fewer at);
    objects = λ un e f g. let (e', f', g') = a.objects un e f g in b.objects un e' f' g';
    roles = λ un e n f g h.
        let x = a.roles un e n f g h in
        let y = b.roles un x.0 x.1 x.2 x.3 x.4 in (y.0, y.1, y.2, y.3, y.4, λ s k. x.5 s (y.5 s k));
  }

  present-fewer :
      (r : Value) (k : String) (x y : Value)
      → is_object r ≡ true
      → find r k ≡ some y
      → (at : Option String) → ahead at (insert r k x) ≤ ahead at r
  present-fewer r k x y o f at =
      let same : keys json (insert r k x) ≡ keys json r =
        ground
          (arith, items-insert r k x o, has_key-assoc (items r) k y (sym (find-items r k o) ∙ f)) in
      rw same (ground (arith, find-insert r k x netns_key o, eq_iff k netns_key))

  netns-fewer :
      (r x : Value)
      → is_object r ≡ true
      → (at : Option String) → ahead at (insert r netns_key x) ≤ ahead at r
  netns-fewer r x o at = elim (Option-cases (find r netns_key)) [
    | inr (y, f) ↦ present-fewer r netns_key x y o f at
    | inl f ↦ ground (
      arith,
      items-insert r netns_key x o,
      left-add_key at netns_key (keys json r),
      find-insert_self json r netns_key x o,
    )
  ]

  -- The key for the default network namespace is written where it holds no object.
  other_than_netns :
      (r e : Value) (un : String)
      → is_null (get json r netns_key) ≡ true
      → find r un ≡ some e
      → is_object e ≡ true
      → str_eq netns_key un ≡ false
  other_than_netns r e un z f o = elim (Bool-cases (str_eq netns_key un)) [
    | inr n ↦ n
    | inl s ↦ absurd (
        ground (
          arith,
          (eq_iff netns_key un).0 s,
          is_object-null,
          null_of_is_null (get json r netns_key),
        ))
  ]

  pub object_of_find : (e n : Value) → find e "network" ≡ some n → is_object e ≡ true
  object_of_find e n f = elim (Bool-cases (is_object e)) [
    | inl o ↦ o
    | inr o ↦ absurd (ground (arith, find-other e "network" o))
  ]

  pub Frame-netns :
      (r x : Value)
      → is_object r ≡ true
      → is_null (get json r netns_key) ≡ true
      → Frame r (insert r netns_key x)
  Frame-netns r x o z = record {
    object_ = is_object-insert r netns_key x o;
    fewer = netns-fewer r x o;
    objects = λ un e f g.
        (e, find-insert_ne json r netns_key x un o (other_than_netns r e un z f g) ∙ f, g);
    roles = λ un e n f g h. (
      e,
      n,
      find-insert_ne json r netns_key x un o (other_than_netns r e un z f (object_of_find e n g))
          ∙ f,
      g,
      h,
      λ s k. k,
    );
  }

  -- Writing a network component over another one.
  pub Frame-set_network :
      (r e c : Value) (name : String)
      → is_object r ≡ true
      → find r name ≡ some e
      → is_object e ≡ true
      → ((n : Value)
          → find e "network" ≡ some n
          → is_object n ≡ true
          → (is_object c ≡ true) × SameRole n c)
      → Frame r (set_network json name c r)
  Frame-set_network r e c name o f eo k = record {
    object_ = is_object-insert r name _ o;
    fewer = present-fewer r name _ e o f;
    objects = λ un x g xo. elim (Bool-cases (str_eq name un)) [
      | inr n ↦ (x, find-insert_ne json r name _ un o n ∙ g, xo)
      | inl s ↦ (_, at un s, is_object-insert e "network" c eo)
    ];
    roles = λ un x n g h no. elim (Bool-cases (str_eq name un)) [
      | inr ne ↦ (x, n, find-insert_ne json r name _ un o ne ∙ g, h, no, λ s q. q)
      | inl s ↦
          let same : x ≡ e = ground (arith, (eq_iff name un).0 s) in
          let kept = k n (ground arith) no in
          (_, c, at un s, find-insert_self json e "network" c eo, kept.0, kept.1)
    ];
  }
    where
      at :
          (un : String)
          → str_eq name un ≡ true
          → find (set_network json name c r) un ≡ some (insert e "network" c)
      at un s = ground (
        arith,
        find-insert r name (insert (get json r name) "network" c) un o,
        get_of_find json r name e f,
      )
