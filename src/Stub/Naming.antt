-- ===== src/Stub/Naming.antt =====
-- stub.py and exporter.py: the names that a reference sends, and what they find on a server that
-- exports the same class.
use summerrpc.Prelude.{
  ℕ, ◌≡◌, refl, sym, ap, ◌∙◌, Bool, true, false, Option, none, some, List, [], ◌∷◌, if◌then◌else◌,
  not, ◌&&◌, All, subst, if_split,
}
use summerrpc.Exceptions.{runtime_error, attribute_error}
use summerrpc.Text.{Bytes, same}
use summerrpc.Text.Laws.{same_refl, same-eq}
use summerrpc.Exporter.{
  Provide, is_private, get_provide, Attribute, Method, Exporter, export, get_method, class_name_of,
}
use summerrpc.Exporter.Names.{is_named, goes_by, last_named, is_taken, get_method-export}
use summerrpc.Messages.{Outcome, ok, raised}
use summerrpc.ReferArgument.{ReferArgument}
use summerrpc.Stub.{
  ClassObject, Refer, Found, proxy, attribute, found_of, getattr, refer, given, Stub, Serializer,
  Cluster, Chain, argument_or,
}

-- The attribute of a name among a class's own.
abbrev pub own_attribute : Bytes → List Attribute → Option Attribute
own_attribute name [] = none
own_attribute name (a ∷ attributes) =
    let rest = own_attribute name attributes in if same a.attr_name name then some a else rest

-- `getattr` finds for the name what stands in the class itself.
abbrev pub IsPlain : ClassObject → Bytes → Type 0
IsPlain c name = c.getattr name ≡ own_attribute name c.cls.attributes

-- Only the attribute `name` goes by `m`.
abbrev pub Only : Bytes → Bytes → List Attribute → Type 0
Only m name = All (λ a. is_named m a ≡ true → a.attr_name ≡ name)

last_named-Only :
    (m name : Bytes) (object : ℕ) (attributes : List Attribute)
    → Only m name attributes
    → last_named m object attributes (some (record { instance_ = object; attr_name = name }))
      ≡ some (record { instance_ = object; attr_name = name })
last_named-Only m name object [] h = refl
last_named-Only m name object (a ∷ attributes) (h, hs) =
    go (is_named m a) h (last_named-Only m name object attributes hs)
  where
    go :
        (b : Bool)
        → (b ≡ true → a.attr_name ≡ name)
        → last_named m object attributes (some (record { instance_ = object; attr_name = name }))
          ≡ some (record { instance_ = object; attr_name = name })
        → last_named m object attributes (
            if b
            then some (record { instance_ = object; attr_name = a.attr_name })
            else some (record { instance_ = object; attr_name = name }))
          ≡ some (record { instance_ = object; attr_name = name })
    go true k rest = rw (k refl) rest
    go false k rest = rest

-- A proxy's name is one that the attribute goes by.
found_of-named :
    (m name : Bytes) (a : Attribute)
    → a.attr_name ≡ name
    → is_private name ≡ false
    → found_of name a ≡ ok (proxy m)
    → is_named m a ≡ true
unfolding get_provide
found_of-named m name a e p h = rw (e, p) (go a.is_method a.provided h)
  where
    found : Bool → Option Provide → Outcome Found
    found b o = if not b then ok (attribute a) else elim (if b then o else none) [
      | none ↦ ok (proxy name)
      | some q ↦ if q.filtered then raised runtime_error else ok (proxy q.name)
    ]

    go : (b : Bool) (o : Option Provide) → found b o ≡ ok (proxy m) → (b && goes_by m o name) ≡ true
    go false o k = cc
    go true none k = let q : name ≡ m = cc in rw q (same_refl m)
    go true (some o) k = on o.filtered k
      where
        on :
            (f : Bool)
            → ◌≡◌ {A = Outcome Found}
                (if f then raised runtime_error else ok (proxy o.name))
                (ok (proxy m))
            → (not f && same o.name m) ≡ true
        on true k = cc
        on false k = let q : o.name ≡ m = cc in rw q (same_refl m)

-- The attribute that `getattr` finds is in the class, and has the name.
own_attribute-last_named :
    (m name : Bytes) (object : ℕ) (attributes : List Attribute) (a : Attribute) (w : Option Method)
    → own_attribute name attributes ≡ some a
    → is_named m a ≡ true
    → Only m name attributes
    → last_named m object attributes w ≡ some (record { instance_ = object; attr_name = name })
own_attribute-last_named m name object [] a w h n o = cc
own_attribute-last_named m name object (b ∷ attributes) a w h n (o, os) =
    go (same b.attr_name name) h
      (λ w'. λ h'. own_attribute-last_named m name object attributes a w' h' n os)
  where
    known : Option Method → Type 0
    known x = x ≡ some (record { instance_ = object; attr_name = name })

    go :
        (x : Bool)
        → (if x then some b else own_attribute name attributes) ≡ some a
        → ((w' : Option Method)
            → own_attribute name attributes ≡ some a
            → known (last_named m object attributes w'))
        → known (last_named m object (b ∷ attributes) w)
    go true h' rest =
        let q : b ≡ a = cc in
        let named : is_named m b ≡ true = subst (λ c. is_named m c ≡ true) (sym q) n in
        rw (named, o named) (last_named-Only m name object attributes os)
    go false h' rest =
        rest
          (if is_named m b
            then some (record { instance_ = object; attr_name = b.attr_name })
            else w)
          h'

own_attribute-name :
    (name : Bytes) (attributes : List Attribute) (a : Attribute)
    → own_attribute name attributes ≡ some a
    → a.attr_name ≡ name
own_attribute-name name [] a h = cc
own_attribute-name name (b ∷ attributes) a h =
    if_split (λ x. x ≡ some a → a.attr_name ≡ name) (same b.attr_name name)
      (λ e k. (let q : b ≡ a = cc in ap (λ c. c.attr_name) (sym q) ∙ same-eq b.attr_name name e))
      (λ e k. own_attribute-name name attributes a k) h

-- What `refer` makes of a class.
refer-class :
    {A : Type 0}
    → (c : ClassObject) (argument : Option ReferArgument) (stub : Stub A) (r : Refer A)
    → refer (some c) argument stub ≡ ok r
    → (r.class_object ≡ c) × (r.class_name ≡ class_name_of c.cls)
unfolding refer
refer-class {A = A} c argument stub r h =
    go stub.transport stub.serializer stub.cluster stub.protocol h
  where
    go :
        (t : Option Bytes) (s : Option Serializer) (u : Option Cluster) (p : Option (Chain A))
        → given t (λ t'. given s (λ s'. given u (λ u'. given p (λ p'. ok (record {
          class_object = c;
          transport = t';
          serializer = s';
          cluster = u';
          protocol = p';
          refer_argument = argument_or argument;
          is_pool_closed = false;
          class_name = class_name_of c.cls;
        })))))
          ≡ ok r
        → (r.class_object ≡ c) × (r.class_name ≡ class_name_of c.cls)
    go (some t) (some s) (some u) (some p) k = (
      ap (λ x. elim x [ ok y ↦ y.class_object | raised e ↦ c ]) (sym k),
      ap (λ x. elim x [ ok y ↦ y.class_name | raised e ↦ class_name_of c.cls ]) (sym k),
    )
    go _ _ _ _ k = cc

getattr-is_named :
    {A : Type 0}
    → (r : Refer A) (name m : Bytes) → IsPlain r.class_object name
    → is_private name ≡ false
    → getattr name r ≡ ok (proxy m)
    → (a : Attribute) × (own_attribute name r.class_object.cls.attributes ≡ some a)
      × (is_named m a ≡ true)
unfolding getattr
getattr-is_named r name m plain public h =
    go (own_attribute name r.class_object.cls.attributes) refl (
      subst
        (λ o. elim o [ none ↦ raised attribute_error | some a ↦ found_of name a ] ≡ ok (proxy m))
        plain h)
  where
    attributes : List Attribute
    attributes = r.class_object.cls.attributes

    go :
        (o : Option Attribute)
        → own_attribute name attributes ≡ o
        → elim o as (λ _. Outcome Found) [
          | none ↦ raised attribute_error
          | some a ↦ found_of name a
        ]
          ≡ ok (proxy m)
        → (a : Attribute) × (own_attribute name attributes ≡ some a) × (is_named m a ≡ true)
    go none e k = absurd (cc)
    go (some a) e k =
        (a, e, found_of-named m name a (own_attribute-name name attributes a e) public k)

-- A reference to a class, and a server that has taken the same class: when the class's attribute
-- `name` is public, `getattr` finds it among the class's own, and a proxy for it sends the name `m`, by which no other method of the class
-- goes, then the names in the proxy's request find on the server the method `name` of the instance
-- that was made for the class.
pub proxy-get_method :
    {A : Type 0}
    → (c : ClassObject) (argument : Option ReferArgument) (stub : Stub A) (r : Refer A)
      (cover : Bool) (server : Exporter) (name m : Bytes)
    → refer (some c) argument stub ≡ ok r
    → is_taken c.cls cover server ≡ true
    → IsPlain c name
    → Only m name c.cls.attributes
    → is_private name ≡ false
    → getattr name r ≡ ok (proxy m)
    → get_method r.class_name m (export (some c.cls) cover server)
      ≡ some (record { instance_ = server.instances; attr_name = name })
proxy-get_method c argument stub r cover server name m made taken plain only public h =
    let (object, n) = refer-class c argument stub r made in
    let (a, e, named) =
      getattr-is_named r name m (subst (λ x. IsPlain x name) (sym object) plain) public h in
    let e' : own_attribute name c.cls.attributes ≡ some a =
      ap (λ (x : ClassObject). own_attribute name x.cls.attributes) (sym object) ∙ e in
    ap (λ x. get_method x m (export (some c.cls) cover server)) n
    ∙ get_method-export c.cls cover server (class_name_of c.cls) m
    ∙ rw (taken, same_refl (class_name_of c.cls))
        (own_attribute-last_named m name server.instances c.cls.attributes a none e' named only)
