-- ===== src/Sema/Scope.antt =====
-- sema/scope.go: nested scopes, innermost first. A scope's map is an association list, newest first.
use gocaml.Base.{Text, text_eq, Option, none, some, List, [], ◌∷◌, if◌then◌else◌}
use gocaml.Ast.{Symbol}

abbrev pub Frame : Type 0
Frame = List (Text × Symbol)

abbrev pub Scope : Type 0
Scope = List Frame

abbrev pub new_scope : Scope → Scope
new_scope parent = [] ∷ parent

-- Writing to a scope that is nil is not reached: the model leaves it alone.
abbrev pub map_symbol : Text → Symbol → Scope → Scope
map_symbol from to [] = []
map_symbol from to (vars ∷ parent) = ((from, to) ∷ vars) ∷ parent

-- `m.vars[name]`
unfoldable pub find_var : Text → Frame → Option Symbol
find_var name [] = none
find_var name ((from, to) ∷ vars) =
    let rest = find_var name vars in if text_eq from name then some to else rest

abbrev pub or_else : Option Symbol → Option Symbol → Option Symbol
or_else none o = o
or_else (some s) o = some s

unfoldable pub resolve : Text → Scope → Option Symbol
unfolding find_var
resolve name [] = none
resolve name (vars ∷ parent) = or_else (find_var name vars) (resolve name parent)
