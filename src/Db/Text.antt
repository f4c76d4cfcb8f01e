-- ===== src/Db/Text.antt =====
-- Text of DHDB: a std::string as its bytes, and what a `const char*` of it shows.
use Prim.Native.Char.{code}
use Prim.Native.String.{String}
use dhserver.Base.{
  ℕ, ◌≡◌, refl, Bool, true, false, List, [], ◌∷◌, arith, ◌==◌, ◌&&◌, if◌then◌else◌, ==_self,
}

-- The bytes of a literal; the literals are ASCII.
abbrev pub bytes : String → List ℕ
bytes String.[] = []
bytes (String.◌∷◌ c s) = code c ∷ bytes s

-- std::string::c_str and std::string(const char*): the text ends at the first zero byte.
unfoldable pub c_str : List ℕ → List ℕ
c_str [] = []
c_str (b ∷ bs) = if b == 0 then [] else b ∷ c_str bs

-- operator== of std::string
unfoldable pub eq_text : List ℕ → List ℕ → Bool
eq_text [] [] = true
eq_text [] (c ∷ cs) = false
eq_text (b ∷ bs) [] = false
eq_text (b ∷ bs) (c ∷ cs) = (b == c) && eq_text bs cs

pub eq_text_self : (bs : List ℕ) → eq_text bs bs ≡ true
unfolding eq_text
eq_text_self [] = refl
eq_text_self (b ∷ bs) = rw (==_self b, eq_text_self bs) refl

pub eq_text→eq : (bs cs : List ℕ) → eq_text bs cs ≡ true → bs ≡ cs
unfolding eq_text
eq_text→eq [] [] e = refl
eq_text→eq [] (c ∷ cs) e = cc
eq_text→eq (b ∷ bs) [] e = cc
eq_text→eq (b ∷ bs) (c ∷ cs) e = ground (arith, eq_text→eq bs cs)
