-- ===== src/Regex/Bounds.antt =====
-- Where matches and captures lie, and how long a repetition can go on.
use sipr.Common.{ℕ, zero, suc, ◌≤◌, ◌<◌, List, [], ◌∷◌, some, ◌≡◌, length, get_elem?, arith}
use sipr.Regex.{Node, Nodes}
use sipr.Regex.Sound.{
  Matches, MatchesAll, MatchesOne, Times, never, once_more, m_literal, m_any, m_class, m_start,
  m_end, m_repeat, m_seq, m_group, m_alt, all_done, all_next, this_one, other_one,
}

pub get_elem?-lt : (text : List ℕ) (i b : ℕ) → get_elem? text i ≡ some b → i < length text
get_elem?-lt [] i b e = cc
get_elem?-lt (x ∷ text) zero b e = omega arith
get_elem?-lt (x ∷ text) (suc i) b e = omega (arith, get_elem?-lt text i b e)

-- A match from inside the text lies inside it, and ends no sooner than it begins.
mutual
  pub Matches-le :
      (text : List ℕ) (node : Node) (i j : ℕ)
      → Matches text node i j
      → i ≤ length text
      → (i ≤ j) × (j ≤ length text)
  Matches-le text node i j (m_literal text' c i' e) h =
      (omega arith, omega (arith, get_elem?-lt text i c e))
  Matches-le text node i j (m_any text' b i' e n) h =
      (omega arith, omega (arith, get_elem?-lt text i b e))
  Matches-le text node i j (m_class text' negated items b i' e n) h =
      (omega arith, omega (arith, get_elem?-lt text i b e))
  Matches-le text node i j (m_start text') h = (omega arith, omega arith)
  Matches-le text node i j (m_end text') h = (omega arith, omega arith)
  Matches-le text node i j (m_group text' idx inner i' j' m) h = Matches-le text inner i j m h
  Matches-le text node i j (m_seq text' nodes i' j' m) h = MatchesAll-le text nodes i j m h
  Matches-le text node i j (m_alt text' nodes i' j' m) h = MatchesOne-le text nodes i j m h
  Matches-le text node i j (m_repeat text' inner min max k i' j' low high m) h =
      Times-le text inner k i j m h

  MatchesAll-le :
      (text : List ℕ) (nodes : Nodes) (i j : ℕ)
      → MatchesAll text nodes i j
      → i ≤ length text
      → (i ≤ j) × (j ≤ length text)
  MatchesAll-le text nodes i j (all_done text' i') h = (omega arith, h)
  MatchesAll-le text nodes i k (all_next text' node rest i' j k' m ms) h =
      let (up, inside) = Matches-le text node i j m h in
      let (on, still) = MatchesAll-le text rest j k ms inside in (omega arith, still)

  MatchesOne-le :
      (text : List ℕ) (nodes : Nodes) (i j : ℕ)
      → MatchesOne text nodes i j
      → i ≤ length text
      → (i ≤ j) × (j ≤ length text)
  MatchesOne-le text nodes i j (this_one text' node rest i' j' m) h = Matches-le text node i j m h
  MatchesOne-le text nodes i j (other_one text' node rest i' j' m) h =
      MatchesOne-le text rest i j m h

  Times-le :
      (text : List ℕ) (node : Node) (k i j : ℕ)
      → Times text node k i j
      → i ≤ length text
      → (i ≤ j) × (j ≤ length text)
  Times-le text node k i j (never text' node' i') h = (omega arith, h)
  Times-le text node k i l (once_more text' node' k' i' j l' ts m) h =
      let (up, inside) = Times-le text node k' i j ts h in
      let (on, still) = Matches-le text node j l m inside in (omega arith, still)
