-- ===== src/Context/Store.antt =====
-- common/context/context_store.cpp. The state is the thread's `g_request_context`.
use kd.Base.{◌≡◌, refl, Bool, true, false, Option, none, some}
use kd.Context.{RequestContext, no_context}

abbrev pub Store : Type 0
Store = Option RequestContext

abbrev value_or : Store → RequestContext → RequestContext
value_or none d = d
value_or (some ctx) d = ctx

unfoldable has_current : Store → Bool
has_current none = false
has_current (some ctx) = true

unfoldable pub get_current : Store → RequestContext
get_current s = value_or s no_context

unfoldable pub set_current : RequestContext → Store → Store
set_current ctx s = some ctx

unfoldable pub clear_current : Store → Store
clear_current s = none

-- What ScopedRequestContext keeps from its constructor to its destructor.
pub record Scope : Type 0 where
  pub had_previous : Bool
  pub previous : RequestContext

unfoldable enter : RequestContext → Store → Scope × Store
unfolding has_current
enter ctx s = (record { had_previous = has_current s; previous = value_or s no_context }, some ctx)

unfoldable leave : Scope → Store → Store
leave scope s = elim scope.had_previous [ true ↦ some scope.previous | false ↦ none ]

-- Code that runs inside nested scopes: it sets, clears, or opens a scope around more code.
mutual
  pub data Code : Type 0 where
    sets : RequestContext → Code
    clears : Code
    scoped : RequestContext → Block → Code

  pub data Block : Type 0 where
    done : Block
    then_do : Code → Block → Block

unfoldable mutual
  unfolding enter leave set_current clear_current

  exec : Code → Store → Store
  exec (sets ctx) s = set_current ctx s
  exec clears s = clear_current s
  exec (scoped ctx body) s = let (scope, inner) = enter ctx s in leave scope (exec_block body inner)

  exec_block : Block → Store → Store
  exec_block done s = s
  exec_block (then_do c cs) s = exec_block cs (exec c s)

leave-enter : (ctx : RequestContext) (s t : Store) → leave (enter ctx s).0 t ≡ s
unfolding enter leave has_current
leave-enter ctx none t = refl
leave-enter ctx (some old) t = refl

-- Whatever runs inside a scope, scopes within it included, its end restores what was current when
-- the scope began, an absent context included.
scope_restores : (ctx : RequestContext) (body : Block) (s : Store) → exec (scoped ctx body) s ≡ s
unfolding exec enter
scope_restores ctx body s = leave-enter ctx s (exec_block body (some ctx))
