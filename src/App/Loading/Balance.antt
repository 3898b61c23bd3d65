-- ===== src/App/Loading/Balance.antt =====
-- Nothing that was opened stays open.
use garcon.Prelude.{
  ℕ, ◌+◌, ◌≡◌, refl, Bool, true, false, List, [], ◌∷◌, ◌++◌, Bool-cases, inl, inr, if◌then◌else◌,
}
use garcon.Prelude.Expected.{Expected, expected, unexpected}
use garcon.Text.{Bytes}
use garcon.App.Loading.{
  Library, DynamicModule, Event, library_opened, library_closed, instance_made, instance_destroyed,
  caught, make_instance, make_dynamic_module, destroy_dynamic_module,
}

unfoldable pub opened : List Event → ℕ
opened [] = 0
opened (library_opened ∷ events) = opened events + 1
opened (library_closed ∷ events) = opened events
opened (instance_made ∷ events) = opened events
opened (instance_destroyed ∷ events) = opened events

unfoldable pub closed : List Event → ℕ
closed [] = 0
closed (library_closed ∷ events) = closed events + 1
closed (library_opened ∷ events) = closed events
closed (instance_made ∷ events) = closed events
closed (instance_destroyed ∷ events) = closed events

-- What the destructor does behind the constructor: nothing where that threw.
abbrev pub lifetime : Expected Bytes DynamicModule × List Event → List Event
lifetime (expected m, events) = events ++ destroy_dynamic_module m
lifetime (unexpected message, events) = events

caught_balanced :
    (r : Expected Bytes DynamicModule) → opened (lifetime (caught r)) ≡ closed (lifetime (caught r))
unfolding opened closed destroy_dynamic_module
caught_balanced (expected m) = elim (Bool-cases m.has_destroy) [
  | inl h ↦ rw h refl
  | inr h ↦ rw h refl
]
caught_balanced (unexpected message) = refl

opened_balanced :
    (opens : Bool) (r : Expected Bytes DynamicModule) (message : Bytes)
    → opened (lifetime (if opens then caught r else (unexpected message, [])))
      ≡ closed (lifetime (if opens then caught r else (unexpected message, [])))
unfolding opened closed
opened_balanced true r message = caught_balanced r
opened_balanced false r message = refl

-- Over the lifetime of a module, or the attempt to make one, the library is closed as often as it is
-- opened.
pub make_dynamic_module_balanced :
    (library : Library) (library_file filename config_text : Bytes)
    → opened (lifetime (make_dynamic_module library library_file filename config_text))
      ≡ closed (lifetime (make_dynamic_module library library_file filename config_text))
unfolding make_dynamic_module
make_dynamic_module_balanced library library_file filename config_text =
    opened_balanced library.opens (make_instance library library_file filename config_text) _
