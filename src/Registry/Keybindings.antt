-- ===== src/Registry/Keybindings.antt =====
-- packages/workbench/src/platform/keybinding/keybindings.ts: `KeybindingRegistry`.
use Prim.Native.String
use zaw.Base.{String, Bool, List, Option}
use zaw.Base.Dict.{values}
use zaw.Context.{ContextKeyExpression}
use zaw.Registry.{Ref, Result, register, dispose}

pub record KeybindingDescriptor : Type 0 where
  pub command : String
  pub key : String
  pub precondition : Option ContextKeyExpression

-- `${key}:${command}`
abbrev pub keybinding_id : KeybindingDescriptor → String
keybinding_id d = String.◌++◌ d.key (String.◌++◌ ":" d.command)

unfoldable pub register_keybinding :
    (String → Bool)
    → Ref KeybindingDescriptor
    → List (String × Ref KeybindingDescriptor)
    → Result (List (String × Ref KeybindingDescriptor))
unfolding register
register_keybinding has_command = register keybinding_id (λ d. has_command d.command)

unfoldable pub dispose_keybinding :
    Ref KeybindingDescriptor
    → List (String × Ref KeybindingDescriptor)
    → List (String × Ref KeybindingDescriptor) × Bool
unfolding dispose
dispose_keybinding = dispose keybinding_id

unfoldable pub all : List (String × Ref KeybindingDescriptor) → List (Ref KeybindingDescriptor)
all m = values m
