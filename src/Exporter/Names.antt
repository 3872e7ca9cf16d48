-- ===== src/Exporter/Names.antt =====
-- exporter.py: which method a name finds once a class has been exported.
use summerrpc.Prelude.{
  ℕ, ◌≡◌, refl, sym, ap, ◌∙◌, Bool, true, false, Option, none, some, List, [], ◌∷◌, if◌then◌else◌,
  not, ◌&&◌, ◌||◌,
}
use summerrpc.Text.{Bytes, same}
use summerrpc.Tables.{Table, set_item, get_item, get_item-set_item}
use summerrpc.Exporter.{
  Provide, is_private, get_provide, Attribute, Cls, Method, Exporter, exported_name, add_methods,
  export, get_method, class_name_of, add_class,
}

-- Whether a public method goes by a name: the one that it is provided under, unless it is filtered,
-- or else its own.
abbrev pub goes_by : Bytes → Option Provide → Bytes → Bool
goes_by m none own_name = same own_name m
goes_by m (some p) own_name = not p.filtered && same p.name m

abbrev pub is_named : Bytes → Attribute → Bool
is_named m a = a.is_method && (not (is_private a.attr_name) && goes_by m a.provided a.attr_name)

-- The last attribute that goes by a name, as a method of the instance.
abbrev pub last_named : Bytes → ℕ → List Attribute → Option Method → Option Method
last_named m object [] found = found
last_named m object (a ∷ attributes) found =
    last_named m object attributes (
      if is_named m a then some (record { instance_ = object; attr_name = a.attr_name }) else found)

-- What a name finds once an attribute is exported under another, or under none.
abbrev named_or : Bytes → Option Method → Option Method → Option Bytes → Option Method
named_or m method found none = found
named_or m method found (some name) = if same name m then method else found

named_or-exported_name :
    (m : Bytes) (a : Attribute) (method found : Option Method)
    → named_or m method found (exported_name a) ≡ (if is_named m a then method else found)
unfolding exported_name get_provide
named_or-exported_name m a method found = on a.is_method (is_private a.attr_name) a.provided
  where
    on :
        (b c : Bool) (o : Option Provide)
        → named_or m method found (
            if not b || c then none else elim (if b then o else none) as (λ _. Option Bytes) [
              | none ↦ some a.attr_name
              | some p ↦ if p.filtered then none else some p.name
            ])
          ≡ (if b && (not c && goes_by m o a.attr_name) then method else found)
    on false c o = refl
    on true true o = refl
    on true false none = refl
    on true false (some p) = last p.filtered
      where
        last :
            (f : Bool)
            → named_or m method found (if f then none else some p.name)
              ≡ (if not f && same p.name m then method else found)
        last true = refl
        last false = refl

get_item-add_methods :
    (m : Bytes) (object : ℕ) (attributes : List Attribute) (d : Table Method)
    → get_item m (add_methods object attributes d) ≡ last_named m object attributes (get_item m d)
unfolding add_methods
get_item-add_methods m object [] d = refl
get_item-add_methods m object (a ∷ attributes) d =
    on (λ e. get_item-add_methods m object attributes e) (exported_name a)
    ∙ ap (last_named m object attributes) (named_or-exported_name m a method (get_item m d))
  where
    method : Option Method
    method = some (record { instance_ = object; attr_name = a.attr_name })

    on :
        ((e : Table Method)
          → get_item m (add_methods object attributes e)
            ≡ last_named m object attributes (get_item m e))
        → (o : Option Bytes)
        → get_item m (elim o as (λ _. Table Method) [
          | none ↦ add_methods object attributes d
          | some name ↦
              add_methods object attributes
                (set_item name (record { instance_ = object; attr_name = a.attr_name }) d)
        ])
          ≡ last_named m object attributes (named_or m method (get_item m d) o)
    on ih none = ih d
    on ih (some name) =
        ih (set_item name (record { instance_ = object; attr_name = a.attr_name }) d)
        ∙ ap (last_named m object attributes) (get_item-set_item name _ d m)

-- Whether `export` takes the class.
abbrev pub is_taken : Cls → Bool → Exporter → Bool
is_taken cls cover self = elim (get_item (class_name_of cls) self.exported) [
  | none ↦ true
  | some methods ↦ cover
]

-- What a name finds in the table of classes.
abbrev found : Bytes → Option (Table Method) → Option Method
found m none = none
found m (some methods) = get_item m methods

get_method-found :
    (c m : Bytes) (self : Exporter) → get_method c m self ≡ found m (get_item c self.exported)
unfolding get_method
get_method-found c m self = go (get_item c self.exported)
  where
    go :
        (o : Option (Table Method))
        → elim o as (λ _. Option Method) [ none ↦ none | some methods ↦ get_item m methods ]
          ≡ found m o
    go none = refl
    go (some x) = refl

get_method-add_class :
    (cls : Cls) (self : Exporter) (c m : Bytes)
    → get_method c m (add_class cls self) ≡ (
        if same (class_name_of cls) c
        then last_named m self.instances cls.attributes none
        else get_method c m self)
get_method-add_class cls self c m =
    get_method-found c m (add_class cls self)
    ∙ ap (found m) (get_item-set_item (class_name_of cls) _ self.exported c)
    ∙ pick (same (class_name_of cls) c)
  where
    pick :
        (b : Bool)
        → found m (
            if b
            then some (add_methods self.instances cls.attributes [])
            else get_item c self.exported)
          ≡ (if b then last_named m self.instances cls.attributes none else get_method c m self)
    pick true = get_item-add_methods m self.instances cls.attributes []
    pick false = sym (get_method-found c m self)

-- After `export`, a class's name and a method's name find, when the class is taken and has that name,
-- its last public method that goes by the method's name, if there is one; any other names find what
-- they found before.
pub get_method-export :
    (cls : Cls) (cover : Bool) (self : Exporter) (c m : Bytes)
    → get_method c m (export (some cls) cover self) ≡ (
        if is_taken cls cover self && same (class_name_of cls) c
        then last_named m self.instances cls.attributes none
        else get_method c m self)
unfolding export
get_method-export cls cover self c m = on (get_item (class_name_of cls) self.exported) cover
  where
    on :
        (o : Option (Table Method)) (cover : Bool)
        → get_method c m (elim o as (λ _. Exporter) [
          | some methods ↦ if not cover then self else add_class cls self
          | none ↦ add_class cls self
        ])
          ≡ (if elim o as (λ _. Bool) [ none ↦ true | some methods ↦ cover ]
                && same (class_name_of cls) c
              then last_named m self.instances cls.attributes none
              else get_method c m self)
    on none cover = get_method-add_class cls self c m
    on (some methods) true = get_method-add_class cls self c m
    on (some methods) false = refl
