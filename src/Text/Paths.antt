-- ===== src/Text/Paths.antt =====
-- pathlib's `Path(path).stem` where slashes divide a path.
use imcodex.Prelude.{ℕ, String, ◌&&◌, not, str_eq, is_empty, if◌then◌else◌, List, [], ◌∷◌, keep}
use imcodex.Text.{split_on, join}

abbrev slash : ℕ
slash = 47

abbrev dot : ℕ
dot = 46

abbrev last_or : String → List String → String
last_or text [] = text
last_or _ (x ∷ xs) = last_or x xs

abbrev but_last : List String → List String
but_last [] = []
but_last (x ∷ []) = []
but_last (x ∷ y ∷ ys) = x ∷ but_last (y ∷ ys)

-- The last component: empty ones and those that are a dot do not count.
unfoldable pub name : String → String
name path = last_or "" (keep (λ c. not (is_empty c) && not (str_eq c ".")) (split_on slash path))

-- The name without its suffix. A dot that comes first or last starts no suffix.
unfoldable pub stem : String → String
unfolding name
stem path =
    let parts = split_on dot (name path) in
    let head = join "." (but_last parts) in
    if is_empty head then name path else if is_empty (last_or "" parts) then name path else head
