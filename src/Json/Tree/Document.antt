-- ===== src/Json/Tree/Document.antt =====
-- Documents in a code of our own: pairs of an operation and its argument for a stack machine.
use libjcat.Json.Laws.{Value, int, string, array, object, Values, nil, cons, Members, end, member}
use libjcat.Prelude.{
  ℕ, List, [], ◌∷◌, Bytes, pos, negsuc, failed, Result, ok, err, ◌≡◌, refl, ◌∙◌, ◌==◌,
  if◌then◌else◌,
}

data Entry : Type 0 where
  value : Value → Entry
  values : Values → Entry
  members : Members → Entry
  text : Bytes → Entry

abbrev text_code : Bytes → Bytes → Bytes
text_code [] rest = 0 ∷ 0 ∷ rest
text_code (c ∷ s) rest = text_code s (1 ∷ c ∷ rest)

-- The code of a value, in front of what follows it.
mutual
  value_code : Value → Bytes → Bytes
  value_code (int (pos n)) rest = 2 ∷ n ∷ rest
  value_code (int (negsuc n)) rest = 3 ∷ n ∷ rest
  value_code (string s) rest = text_code s (4 ∷ 0 ∷ rest)
  value_code (array vs) rest = values_code vs (5 ∷ 0 ∷ rest)
  value_code (object ms) rest = members_code ms (6 ∷ 0 ∷ rest)

  values_code : Values → Bytes → Bytes
  values_code nil rest = 7 ∷ 0 ∷ rest
  values_code (cons v vs) rest = values_code vs (value_code v (8 ∷ 0 ∷ rest))

  members_code : Members → Bytes → Bytes
  members_code end rest = 9 ∷ 0 ∷ rest
  members_code (member key v ms) rest =
      members_code ms (text_code key (value_code v (10 ∷ 0 ∷ rest)))

abbrev prepend : ℕ → List Entry → List Entry
prepend c (text s ∷ st) = text (c ∷ s) ∷ st
prepend c st = st

abbrev finish_value : ℕ → List Entry → List Entry
finish_value op (text s ∷ st) = value (string s) ∷ st
finish_value op (values vs ∷ st) = value (array vs) ∷ st
finish_value op (members ms ∷ st) = value (object ms) ∷ st
finish_value op st = st

abbrev add_value : List Entry → List Entry
add_value (value v ∷ values vs ∷ st) = values (cons v vs) ∷ st
add_value st = st

abbrev add_member : List Entry → List Entry
add_member (value v ∷ text key ∷ members ms ∷ st) = members (member key v ms) ∷ st
add_member st = st

-- One operation on the stack.
abbrev step : ℕ → ℕ → List Entry → List Entry
step op arg st =
    if op == 0
    then text [] ∷ st
    else if op == 1
    then prepend arg st
    else if op == 2
    then value (int (pos arg)) ∷ st
    else if op == 3
    then value (int (negsuc arg)) ∷ st
    else if op == 7
    then values nil ∷ st
    else if op == 8
    then add_value st
    else if op == 9
    then members end ∷ st
    else if op == 10
    then add_member st
    else finish_value op st

run : Bytes → List Entry → List Entry
run [] st = st
run (op ∷ []) st = st
run (op ∷ arg ∷ rest) st = run rest (step op arg st)

abbrev the_value : List Entry → Result Value
the_value (value v ∷ []) = ok v
the_value _ = err (record { code = failed; message = []; values = [] })

pub write : Value → Bytes
unfolding value_code
write v = value_code v []

pub read : Bytes → Result Value
unfolding run
read doc = the_value (run doc [])

run-text_code :
    (s rest : Bytes) (st : List Entry) → run (text_code s rest) st ≡ run rest (text s ∷ st)
unfolding run
run-text_code [] rest st = refl
run-text_code (c ∷ s) rest st = run-text_code s (1 ∷ c ∷ rest) st

mutual
  unfolding run value_code

  run-value_code :
      (v : Value) (rest : Bytes) (st : List Entry)
      → run (value_code v rest) st ≡ run rest (value v ∷ st)
  run-value_code (int (pos n)) rest st = refl
  run-value_code (int (negsuc n)) rest st = refl
  run-value_code (string s) rest st = run-text_code s (4 ∷ 0 ∷ rest) st
  run-value_code (array vs) rest st = run-values_code vs (5 ∷ 0 ∷ rest) st
  run-value_code (object ms) rest st = run-members_code ms (6 ∷ 0 ∷ rest) st

  run-values_code :
      (vs : Values) (rest : Bytes) (st : List Entry)
      → run (values_code vs rest) st ≡ run rest (values vs ∷ st)
  run-values_code nil rest st = refl
  run-values_code (cons v vs) rest st =
      run-values_code vs (value_code v (8 ∷ 0 ∷ rest)) st
      ∙ run-value_code v (8 ∷ 0 ∷ rest) (values vs ∷ st)

  run-members_code :
      (ms : Members) (rest : Bytes) (st : List Entry)
      → run (members_code ms rest) st ≡ run rest (members ms ∷ st)
  run-members_code end rest st = refl
  run-members_code (member key v ms) rest st =
      run-members_code ms (text_code key (value_code v (10 ∷ 0 ∷ rest))) st
      ∙ run-text_code key (value_code v (10 ∷ 0 ∷ rest)) (members ms ∷ st)
      ∙ run-value_code v (10 ∷ 0 ∷ rest) (text key ∷ members ms ∷ st)

-- A document that was written is read back.
pub read-write : (v : Value) → read (write v) ≡ ok v
unfolding read write
read-write v = rw (run-value_code v [] [])
