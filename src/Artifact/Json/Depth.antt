-- ===== src/Artifact/Json/Depth.antt =====
-- The loop of `json_depth` in crates/artifact/src/schema.rs ends, with the height of the value.
use Prim.Native.Nat.{max}
use soverign_founder_os.Base.{ℕ, zero, suc, ◌+◌, ◌-◌, ◌≤◌, ◌≡◌, refl, ap, ◌∙◌, some, [], ◌∷◌, arith}
use soverign_founder_os.Artifact.Json.{
  Value, null, bool, number, string, array, object, Values, nil, cons, Members, end, member, Stack,
  push_values, push_members, push_children, depth_loop, size, size_values, size_members, json_depth,
}

-- the height of a value as a tree: a reference definition
unfoldable mutual
  pub height : Value → ℕ
  height (array values) = suc (height_values values)
  height (object members) = suc (height_members members)
  height null = 1
  height (bool b) = 1
  height (number n) = 1
  height (string s) = 1

  pub height_values : Values → ℕ
  height_values nil = 0
  height_values (cons value values) = max (height value) (height_values values)

  pub height_members : Members → ℕ
  height_members end = 0
  height_members (member key value members) = max (height value) (height_members members)

-- what the loop has still to visit, and what it will have found
total : Stack → ℕ
total [] = 0
total ((value, depth) ∷ stack) = size value + total stack

reached : Stack → ℕ → ℕ
reached [] maximum = maximum
reached ((value, depth) ∷ stack) maximum = reached stack (max maximum (depth + height value - 1))

total-push_values :
    (values : Values) (depth : ℕ) (stack : Stack)
    → total (push_values values depth stack) ≡ size_values values + total stack
unfolding total push_values size_values
total-push_values nil depth stack = omega arith
total-push_values (cons value values) depth stack =
    omega (arith, total-push_values values depth ((value, depth) ∷ stack))

total-push_members :
    (members : Members) (depth : ℕ) (stack : Stack)
    → total (push_members members depth stack) ≡ size_members members + total stack
unfolding total push_members size_members
total-push_members end depth stack = omega arith
total-push_members (member key value members) depth stack =
    omega (arith, total-push_members members depth ((value, depth) ∷ stack))

total-push_children :
    (value : Value) (depth : ℕ) (stack : Stack)
    → suc (total (push_children value depth stack)) ≡ size value + total stack
unfolding push_children size
total-push_children (array values) depth stack =
    omega (arith, total-push_values values (suc depth) stack)
total-push_children (object members) depth stack =
    omega (arith, total-push_members members (suc depth) stack)
total-push_children null depth stack = omega arith
total-push_children (bool b) depth stack = omega arith
total-push_children (number n) depth stack = omega arith
total-push_children (string s) depth stack = omega arith

reached-push_values :
    (values : Values) (depth : ℕ) (stack : Stack) (maximum : ℕ)
    → depth ≤ maximum
    → reached (push_values values (suc depth) stack) maximum
      ≡ reached stack (max maximum (depth + height_values values))
unfolding reached push_values height_values
reached-push_values nil depth stack maximum low = ap (reached stack) (omega arith)
reached-push_values (cons value values) depth stack maximum low =
    reached-push_values values depth ((value, suc depth) ∷ stack) maximum low
    ∙ ap (reached stack) (omega arith)

reached-push_members :
    (members : Members) (depth : ℕ) (stack : Stack) (maximum : ℕ)
    → depth ≤ maximum
    → reached (push_members members (suc depth) stack) maximum
      ≡ reached stack (max maximum (depth + height_members members))
unfolding reached push_members height_members
reached-push_members end depth stack maximum low = ap (reached stack) (omega arith)
reached-push_members (member key value members) depth stack maximum low =
    reached-push_members members depth ((value, suc depth) ∷ stack) maximum low
    ∙ ap (reached stack) (omega arith)

reached-push_children :
    (value : Value) (depth : ℕ) (stack : Stack) (maximum : ℕ)
    → reached (push_children value depth stack) (max maximum depth)
      ≡ reached stack (max maximum (depth + height value - 1))
unfolding push_children height
reached-push_children (array values) depth stack maximum =
    reached-push_values values depth stack (max maximum depth) (omega arith)
    ∙ ap (reached stack) (omega arith)
reached-push_children (object members) depth stack maximum =
    reached-push_members members depth stack (max maximum depth) (omega arith)
    ∙ ap (reached stack) (omega arith)
reached-push_children null depth stack maximum = ap (reached stack) (omega arith)
reached-push_children (bool b) depth stack maximum = ap (reached stack) (omega arith)
reached-push_children (number n) depth stack maximum = ap (reached stack) (omega arith)
reached-push_children (string s) depth stack maximum = ap (reached stack) (omega arith)

size-pos : (value : Value) → 1 ≤ size value
unfolding size
size-pos (array values) = omega arith
size-pos (object members) = omega arith
size-pos null = omega arith
size-pos (bool b) = omega arith
size-pos (number n) = omega arith
size-pos (string s) = omega arith

height-pos : (value : Value) → 1 ≤ height value
unfolding height
height-pos (array values) = omega arith
height-pos (object members) = omega arith
height-pos null = omega arith
height-pos (bool b) = omega arith
height-pos (number n) = omega arith
height-pos (string s) = omega arith

depth_loop-total :
    (fuel : ℕ) (stack : Stack) (maximum : ℕ)
    → total stack ≤ fuel
    → depth_loop fuel stack maximum ≡ some (reached stack maximum)
unfolding depth_loop total reached
depth_loop-total zero [] maximum enough = refl
depth_loop-total (suc fuel) [] maximum enough = refl
depth_loop-total zero ((value, depth) ∷ stack) maximum enough =
    absurd (omega (arith, size-pos value))
depth_loop-total (suc fuel) ((value, depth) ∷ stack) maximum enough =
    depth_loop-total fuel (push_children value depth stack) (max maximum depth)
      (omega (arith, total-push_children value depth stack))
    ∙ ap some (reached-push_children value depth stack maximum)

-- The loop ends: it takes one round for each value in the input, and what it returns is the height of
-- the input as a tree.
pub json_depth-height : (root : Value) → json_depth root ≡ some (height root)
unfolding json_depth total reached
json_depth-height root =
    depth_loop-total (size root) ((root, 1) ∷ []) 1 (omega arith)
    ∙ ap some (omega (arith, height-pos root))
