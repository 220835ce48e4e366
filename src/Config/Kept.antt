-- ===== src/Config/Kept.antt =====
-- What a change at one name keeps for the entities of the other names.
use nonsense.Base.{
  String, ◌≡◌, ◌⊎◌, inl, inr, ◌∙◌, true, false, none, some, arith, str_eq, eq_iff, Bool-cases,
}
use nonsense.Json.{JsonLib}
use nonsense.Config.Names.{NetworkParameter, role, external, default_, address, uplink}
use nonsense.Config.Validate.{get}
use nonsense.Config.Checks.{netns_key, Meets, HasUplink}
use nonsense.Config.Loop.{Accepted}
use nonsense.Config.Touches.{Touches}
use nonsense.Config.Network.{GoodNetwork}
use nonsense.Config.Components.{ValidEntity}
use nonsense.Config.Store.{OnlyEntity}

module _ (json : JsonLib) (name : String) (ordinary : str_eq netns_key name ≡ false) where
  open json use {
    Value, null, string, is_null, is_object, find, is_null-null, is_null-string, is_object-null,
    null_of_is_null,
  }

  -- Every other entity is as it was, and the default network namespace is as it was, or was
  -- nobody's and is now the entity's.
  pub record Kept (r r' : Value) : Type 0 where
    pub object_ : is_object r' ≡ true
    pub others :
        (j : String) → str_eq name j ≡ false → str_eq netns_key j ≡ false → find r' j ≡ find r j
    pub netns :
        (find r' netns_key ≡ find r netns_key)
        ⊎ ((is_null (get json r netns_key) ≡ true) × (find r' netns_key ≡ some (string name)))

  name_netns : str_eq name netns_key ≡ false
  name_netns = ground (arith, eq_iff name netns_key, eq_iff netns_key name)

  pub Kept-OnlyEntity : (r r' : Value) → OnlyEntity json name r r' → Kept r r'
  Kept-OnlyEntity r r' k = record {
    object_ = k.object_;
    others = λ j n d. k.others j n;
    netns = inl (k.others netns_key name_netns);
  }

  pub Kept-Touches : (r r' : Value) → Touches json name ordinary r r' → Kept r r'
  Kept-Touches r r' t = record { object_ = t.object; others = t.others; netns = t.netns }

  -- Changes of the entity alone may come before and after.
  pub Kept-before : (r s t : Value) → OnlyEntity json name r s → Kept s t → Kept r t
  Kept-before r s t a b = record {
    object_ = b.object_;
    others = λ j n d. b.others j n d ∙ a.others j n;
    netns = shift b.netns;
  }
    where
      shift :
          (find t netns_key ≡ find s netns_key)
            ⊎ ((is_null (get json s netns_key) ≡ true) × (find t netns_key ≡ some (string name)))
          → (find t netns_key ≡ find r netns_key)
            ⊎ ((is_null (get json r netns_key) ≡ true) × (find t netns_key ≡ some (string name)))
      shift (inl e) = inl (e ∙ a.others netns_key name_netns)
      shift (inr (z, e)) = inr (ground (arith, a.others netns_key name_netns), e)

  pub Kept-after : (r s t : Value) → Kept r s → OnlyEntity json name s t → Kept r t
  Kept-after r s t a b = record {
    object_ = b.object_;
    others = λ j n d. b.others j n ∙ a.others j n d;
    netns = shift a.netns;
  }
    where
      shift :
          (find s netns_key ≡ find r netns_key)
            ⊎ ((is_null (get json r netns_key) ≡ true) × (find s netns_key ≡ some (string name)))
          → (find t netns_key ≡ find r netns_key)
            ⊎ ((is_null (get json r netns_key) ≡ true) × (find t netns_key ≡ some (string name)))
      shift (inl e) = inl (b.others netns_key name_netns ∙ e)
      shift (inr (z, e)) = inr (z, b.others netns_key name_netns ∙ e)

  module _ (r r' : Value) (k : Kept r r') where
    -- What an uplink of another name refers to is still there.
    pub Kept-object :
        (un : String) (e : Value)
        → str_eq name un ≡ false
        → find r un ≡ some e
        → is_object e ≡ true
        → find r' un ≡ some e
    Kept-object un e n f o = elim (Bool-cases (str_eq netns_key un)) [
      | inr d ↦ k.others un n d ∙ f
      | inl d ↦ at_netns k.netns ((eq_iff netns_key un).0 d)
    ]
      where
        at_netns :
            (find r' netns_key ≡ find r netns_key)
              ⊎ ((is_null (get json r netns_key) ≡ true) × (find r' netns_key ≡ some (string name)))
            → netns_key ≡ un
            → find r' un ≡ some e
        at_netns (inl x) q = ground arith
        at_netns (inr (z, x)) q =
            absurd (ground (arith, null_of_is_null (get json r netns_key), is_object-null))

    pub Kept-HasUplink :
        (c : Value) (u : HasUplink json c r)
        → str_eq name u.uplink_name ≡ false
        → HasUplink json c r'
    Kept-HasUplink c u n = record {
      uplink_name = u.uplink_name;
      entity = u.entity;
      net = u.net;
      named = u.named;
      found = Kept-object u.uplink_name u.entity n u.found u.entity_object;
      entity_object = u.entity_object;
      net_found = u.net_found;
      net_object = u.net_object;
      not_client = u.not_client;
    }

    abbrev pub KeepsUplinks : Type 0
    KeepsUplinks = (c : Value) → HasUplink json c r → HasUplink json c r'

    -- Nobody has an entity that was not there for an uplink.
    pub fresh-KeepsUplinks : find r name ≡ none → KeepsUplinks
    fresh-KeepsUplinks fresh c u = elim (Bool-cases (str_eq name u.uplink_name)) [
      | inr n ↦ Kept-HasUplink c u n
      | inl same ↦ absurd (ground (arith, u.found, (eq_iff name u.uplink_name).0 same))
    ]

    module _ (uplinks : KeepsUplinks) where
      Kept-Meets :
          (other : String) (c : Value) (p : NetworkParameter)
          → Meets json other c r p
          → Meets json other c r' p
      Kept-Meets other c role m = tt
      Kept-Meets other c external m = tt
      Kept-Meets other c default_ m = at_netns k.netns
        where
          at_netns :
              (find r' netns_key ≡ find r netns_key)
                ⊎ ((is_null (get json r netns_key) ≡ true)
                    × (find r' netns_key ≡ some (string name)))
              → get json r' netns_key ≡ string other
          at_netns (inl x) = rw (x, get) m
          at_netns (inr (z, x)) = absurd (ground (arith, is_null-string other))
      Kept-Meets other c address m = m
      Kept-Meets other c uplink u = uplinks c u

      module _ (other : String) (plain : str_eq netns_key other ≡ false) where
        Kept-Accepted :
            (c : Value) (key : String)
            → Accepted json other plain c r key
            → Accepted json other plain c r' key
        Kept-Accepted c key (inl e) = inl e
        Kept-Accepted c key (inr (p, f, m)) = inr (p, f, Kept-Meets other c p m)

        Kept-GoodNetwork :
            (c : Value) → GoodNetwork json other plain c r → GoodNetwork json other plain c r'
        Kept-GoodNetwork c g = record {
          object_ = g.object_;
          text = g.text;
          role = g.role;
          role_found = g.role_found;
          role_known = g.role_known;
          role_kept = g.role_kept;
          accepted = λ key x f. Kept-Accepted c key (g.accepted key x f);
        }

        -- A valid entity of another name is still valid.
        pub Kept-ValidEntity :
            str_eq name other ≡ false
            → ValidEntity json other plain r
            → ValidEntity json other plain r'
        Kept-ValidEntity n v = record {
          known = λ type c f. v.known type c (same type ∙ f);
          good = λ c f. Kept-GoodNetwork c (v.good c (same "network" ∙ f));
        }
          where
            same : (type : String) → find (get json r other) type ≡ find (get json r' other) type
            same type = rw (k.others other n plain, get)
