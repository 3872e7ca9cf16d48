-- ===== src/Exporter.antt =====
-- exporter.py and decorator.py: the names under which methods can be called. A class is what the
-- exporter sees of it by reflection.
pub mod Names
use summerrpc.Prelude.{
  ℕ, zero, suc, ◌==◌, Bool, true, false, Option, none, some, List, [], ◌∷◌, ◌++◌, if◌then◌else◌,
  not, ◌&&◌, ◌||◌,
}
use summerrpc.Exceptions.{Class, type_error}
use summerrpc.Text.{Bytes, same}
use summerrpc.Tables.{Table, set_item, get_item}
use summerrpc.Messages.{Outcome, ok, raised}

-- What stands under `__rpc_provide__`.
pub record Provide : Type 0 where
  pub name : Bytes
  pub filtered : Bool

-- One entry of `vars(cls)`: its name, whether it is a function or a method, and its two marks.
pub record Attribute : Type 0 where
  pub attr_name : Bytes
  pub is_method : Bool
  pub provided : Option Provide
  pub in_subprocess : Option Bool

-- A class: `__name__`, the name under `__rpc_export__`, and its attributes in the order of `vars`.
pub record Cls : Type 0 where
  pub name : Bytes
  pub exported_as : Option Bytes
  pub attributes : List Attribute

-- `export(name)(cls)`; `none` stands for a name that is no text, and for an object that is no class,
-- which is left alone.
unfoldable pub export_class : Option Bytes → Option Cls → Outcome (Option Cls)
export_class none cls = raised type_error
export_class (some name) none = ok none
export_class (some name) (some cls) = ok (some (record cls { exported_as = some name }))

-- `get_export(cls)`, the name in it.
abbrev pub get_export : Cls → Option Bytes
get_export cls = cls.exported_as

-- `get_provide(f)`, `run_in_subprocess(f)` and `get_run_in_subprocess(f)`: anything but a function
-- or a method is left alone.
unfoldable pub get_provide : Attribute → Option Provide
get_provide f = if f.is_method then f.provided else none

unfoldable pub run_in_subprocess : Attribute → Attribute
run_in_subprocess f = if f.is_method then record f { in_subprocess = some true } else f

unfoldable pub get_run_in_subprocess : Attribute → Option Bool
get_run_in_subprocess f = if f.is_method then f.in_subprocess else none

-- A bound method: the instance, and the name of the attribute.
pub record Method : Type 0 where
  pub instance_ : ℕ
  pub attr_name : Bytes

pub record Exporter : Type 0 where
  pub exported : Table (Table Method)
  pub class_name_to_object : Table ℕ
  pub instances : ℕ

-- `Exporter.__init__` without the heartbeat.
abbrev pub empty : Exporter
empty = record { exported = []; class_name_to_object = []; instances = 0 }

-- `attr_name.startswith("_")`
abbrev pub is_private : Bytes → Bool
is_private [] = false
is_private (c ∷ s) = c == 95

-- The name under which an attribute is exported, if it is.
unfoldable pub exported_name : Attribute → Option Bytes
unfolding get_provide
exported_name a = if not a.is_method || is_private a.attr_name then none else elim (get_provide a) [
  | none ↦ some a.attr_name
  | some p ↦ if p.filtered then none else some p.name
]

-- The `for` loop over `vars(cls)`.
unfoldable pub add_methods : ℕ → List Attribute → Table Method → Table Method
unfolding exported_name
add_methods object [] d = d
add_methods object (a ∷ attributes) d = elim (exported_name a) [
  | none ↦ add_methods object attributes d
  | some name ↦
      add_methods object attributes
        (set_item name (record { instance_ = object; attr_name = a.attr_name }) d)
]

-- `export_info["name"]`, or the name of the class.
abbrev pub class_name_of : Cls → Bytes
class_name_of cls = elim (get_export cls) [ none ↦ cls.name | some name ↦ name ]

-- An instance of the class is made, and its methods are exported.
abbrev pub add_class : Cls → Exporter → Exporter
add_class cls self = record {
  exported =
      set_item (class_name_of cls) (add_methods self.instances cls.attributes []) self.exported;
  class_name_to_object = set_item (class_name_of cls) self.instances self.class_name_to_object;
  instances = suc self.instances;
}

-- `export`; `none` stands for an object that is no class. Both refusals only warn.
unfoldable pub export : Option Cls → Bool → Exporter → Exporter
unfolding add_methods
export none cover self = self
export (some cls) cover self = elim (get_item (class_name_of cls) self.exported) [
  | some methods ↦ if not cover then self else add_class cls self
  | none ↦ add_class cls self
]

-- `Exporter.__init__`, which may export the class of heartbeats.
unfoldable pub init : Option Cls → Exporter
unfolding export
init none = empty
init (some heartbeat) = export (some heartbeat) false empty

-- `get_method`
unfoldable pub get_method : Bytes → Bytes → Exporter → Option Method
get_method class_name method_name self = elim (get_item class_name self.exported) [
  | none ↦ none
  | some methods ↦ get_item method_name methods
]

-- `iter_method`
abbrev of_class : Bytes → Table Method → List (Bytes × Bytes × Method)
of_class class_name [] = []
of_class class_name ((name, m) ∷ ms) = (class_name, name, m) ∷ of_class class_name ms

unfoldable pub iter_table : Table (Table Method) → List (Bytes × Bytes × Method)
iter_table [] = []
iter_table ((class_name, methods) ∷ classes) = of_class class_name methods ++ iter_table classes

-- `get_object`
unfoldable pub get_object : Bytes → Exporter → Option ℕ
get_object class_name self = get_item class_name self.class_name_to_object
