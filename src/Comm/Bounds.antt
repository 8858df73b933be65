-- ===== src/Comm/Bounds.antt =====
-- How long the printed lines are, and what fits into the buffer of 5000 bytes.
use meshias.Base.{
  ℕ, zero, suc, ◌+◌, ◌*◌, ◌<◌, ◌≤◌, ◌≡◌, refl, sym, ◌∙◌, ap, false, ◌||◌, some, List, [], ◌∷◌, ◌++◌,
  leb, ℤ, pos, negsuc, arith, All, length, length-append, take, length-digits, map,
}
use mathlib.Core.List.{append-nil, append_assoc}
use meshias.Word.{u32_mod, signed32}
use meshias.Route.{MshRoute}
use meshias.State.{MshData, Statistics}
use meshias.Comm.{stats_size, add_routes, get_routes}
use meshias.Comm.Format.{
  RouteData, print_int, print_line, statistics_counters, statistics_fields, get_statistics,
  truncated, add_route, route_fields, add_route_cb,
}
use meshias.Comm.Readback.{Printable, read_line, read_line-print_line}

length-print_int : (x : ℤ) (rest : List ℕ) → length (print_int x rest) ≤ 11 + length rest
unfolding print_int
length-print_int (pos n) rest = omega (arith, length-digits 10 n rest)
length-print_int (negsuc n) rest = omega (arith, length-digits 10 (suc n) rest)

length-print_line : (xs : List ℤ) → length (print_line xs) ≤ 12 * length xs + 1
unfolding print_line
length-print_line [] = omega arith
length-print_line (x ∷ []) = omega (arith, length-print_int x (10 ∷ []))
length-print_line (x ∷ y ∷ more) =
    omega (arith, length-print_int x (35 ∷ print_line (y ∷ more)), length-print_line (y ∷ more))

take_all : (n : ℕ) (xs : List ℕ) → length xs ≤ n → take n xs ≡ xs
take_all zero [] h = refl
take_all zero (x ∷ xs) h = absurd (omega (arith, h))
take_all (suc n) [] h = refl
take_all (suc n) (x ∷ xs) h = ap (λ (l : List ℕ). x ∷ l) (take_all n xs (omega (arith, h)))

not_truncated : (xs : List ℕ) → length xs ≤ 4999 → truncated 5000 xs ≡ xs
not_truncated xs h = take_all 4999 xs h

signed32-Printable : (x : ℕ) → x < u32_mod → Printable (signed32 x)
signed32-Printable x h = ground arith

map-Printable : (xs : List ℕ) → All (λ x. x < u32_mod) xs → All Printable (map signed32 xs)
map-Printable [] h = tt
map-Printable (x ∷ xs) h = (signed32-Printable x h.0, map-Printable xs h.1)

-- With counters of 32 bits, the line of the statistics is not cut off, and says every counter, as the
-- signed number that `%d` makes of it.
pub read_line-get_statistics :
    (stats : Statistics)
    → All (λ x. x < u32_mod) (statistics_counters stats)
    → read_line 16 (get_statistics stats_size stats) ≡ some (statistics_fields stats)
unfolding get_statistics
read_line-get_statistics stats h =
    ap (read_line 16) (
      not_truncated (print_line (statistics_fields stats))
        (omega (arith, length-print_line (statistics_fields stats))))
    ∙ read_line-print_line _ _ (map-Printable (statistics_counters stats) h)

-- The lines of the routes of a table, one after the other.
abbrev pub lines_of : (ℕ → MshRoute) → List ℕ → List ℕ
lines_of routes [] = []
lines_of routes (p ∷ rest) = add_route (routes p) ++ lines_of routes rest

length-add_route : (route : MshRoute) → length (add_route route) ≤ 85
unfolding add_route
length-add_route route = omega (arith, length-print_line (route_fields route))

-- The buffer of 5000 bytes with a text at its front.
abbrev pub holding : List ℕ → RouteData
holding text = record {
  number = length text;
  size = 5000;
  buf = text;
  past_end = leb 5000 (length text);
}

leb_or : (a b : ℕ) → (leb 5000 a || leb 5000 (a + b)) ≡ leb 5000 (a + b)
leb_or a b = ground arith

append_line :
    (text line : List ℕ)
    → length line ≤ 4999
    → record {
      number = length text + length line;
      size = 5000;
      buf = text ++ truncated 5000 line;
      past_end = leb 5000 (length text) || leb 5000 (length text + length (truncated 5000 line));
    }
      ≡ holding (text ++ line)
append_line text line h =
    rw (not_truncated line h, leb_or (length text) (length line), length-append text line) refl

add_route_cb-holding :
    (route : MshRoute) (text : List ℕ)
    → add_route_cb route (holding text) ≡ holding (text ++ add_route route)
unfolding add_route_cb
add_route_cb-holding route text =
    append_line text (add_route route) (omega (arith, length-add_route route))

add_routes-holding :
    (routes : ℕ → MshRoute) (table text : List ℕ)
    → add_routes routes table (holding text) ≡ holding (text ++ lines_of routes table)
unfolding add_routes
add_routes-holding routes [] text = ap holding (sym (append-nil text))
add_routes-holding routes (p ∷ rest) text =
    ap (add_routes routes rest) (add_route_cb-holding (routes p) text)
    ∙ add_routes-holding routes rest (text ++ add_route (routes p))
    ∙ ap holding (append_assoc text (add_route (routes p)) (lines_of routes rest))

length-lines_of :
    (routes : ℕ → MshRoute) (table : List ℕ) → length (lines_of routes table) ≤ 85 * length table
length-lines_of routes [] = omega arith
length-lines_of routes (p ∷ rest) = omega (
  arith,
  length-append (add_route (routes p)) (lines_of routes rest),
  length-add_route (routes p),
  length-lines_of routes rest,
)

-- The text of the routing table is the lines of its routes, one after the other and none cut off; it
-- runs past the end of the buffer exactly if it is 5000 bytes or longer, since each line is printed as
-- if it had the whole buffer.
pub get_routes_exact :
    (s : MshData)
    → ((get_routes stats_size s).buf ≡ lines_of s.routes s.routing_table)
      × ((get_routes stats_size s).past_end ≡ leb 5000 (length (lines_of s.routes s.routing_table)))
unfolding get_routes
get_routes_exact s =
    let all = add_routes-holding s.routes s.routing_table [] in
    (ap (λ rd. rd.buf) all, ap (λ rd. rd.past_end) all)

-- With at most 58 routes in the table, their text stays inside the buffer.
pub get_routes-fits :
    (s : MshData) → length s.routing_table ≤ 58 → (get_routes stats_size s).past_end ≡ false
get_routes-fits s few =
    (get_routes_exact s).1 ∙ ground (arith, few, length-lines_of s.routes s.routing_table)
