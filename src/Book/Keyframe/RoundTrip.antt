-- ===== src/Book/Keyframe/RoundTrip.antt =====
-- A keyframe gives back the books that it was written from, unless one of them is crossed.
use kalshi_trading_project.Prelude.{ℕ, ◌≡◌, refl, none, List, [], ◌∷◌, ◌++◌, All, arith, ◌∙◌}
use kalshi_trading_project.Prelude.Eq.{string_eq}
use kalshi_trading_project.Prelude.Result.{Result, ok, err, ◌>>=◌}
use kalshi_trading_project.Prelude.Dict.{Dict, lookup, put, IsDistinct}
use text.Mathlib.TextEquality.{eq_iff}
use mathlib.Core.List.{append_assoc, append-nil}
use Prim.Native.String.{String}
use kalshi_trading_project.Book.{Book, Violation}
use kalshi_trading_project.Book.Invariant.{IsWellFormed, IsUncrossed}
use kalshi_trading_project.Book.Keyframe.{
  KeyframeRow, to_keyframe, group_rows, book_of_rows, books_of_groups, books_from_keyframe_rows,
}
use kalshi_trading_project.Book.Keyframe.Rows.{IsOwnRow, to_keyframe-Own}
use kalshi_trading_project.Book.Keyframe.Groups.{group_rows-append, lookup-append_ne, put_new}
use kalshi_trading_project.Book.Keyframe.OneBook.{
  IsSameBook, IsRebuilt, book_of_rows-same, book_of_rows-crossed,
}

abbrev pub by_ticker : List Book → Dict String Book
by_ticker [] = []
by_ticker (b ∷ bs) = (b.ticker, b) ∷ by_ticker bs

-- The rows that a recorder writes for its books.
abbrev pub keyframe_rows : ℕ → List Book → List KeyframeRow
keyframe_rows as_of [] = []
keyframe_rows as_of (b ∷ bs) = to_keyframe as_of b ++ keyframe_rows as_of bs

abbrev pub AreSameBooks : List Book → Dict String Book → Type 0
AreSameBooks [] [] = Unit
AreSameBooks [] (x ∷ out) = ⊥
AreSameBooks (b ∷ bs) [] = ⊥
AreSameBooks (b ∷ bs) ((t, b') ∷ out) = (t ≡ b.ticker) × IsSameBook b b' × AreSameBooks bs out

-- No book of the list has an entry yet.
abbrev AreNew {ℓ} : {V : Type ℓ} → Dict String V → List Book → Type ℓ
AreNew d [] = Unit
AreNew d (b ∷ bs) = (lookup b.ticker d ≡ none) × AreNew d bs

AreNew-append {ℓ} :
    {V : Type ℓ} (t : String) (v : V) (d : Dict String V) (bs : List Book)
    → lookup t (by_ticker bs) ≡ none
    → AreNew d bs
    → AreNew (d ++ (t, v) ∷ []) bs
AreNew-append t v d [] h k = tt
AreNew-append t v d (b ∷ bs) h k = (
  lookup-append_ne t b.ticker v d k.0
      (unfold lookup in ground (arith, eq_iff t b.ticker, eq_iff b.ticker t)),
  AreNew-append t v d bs (unfold lookup in ground (arith, h)) k.1,
)

own_tickers :
    (as_of : ℕ) (b : Book) (rs : List KeyframeRow)
    → All (IsOwnRow as_of b) rs
    → All (λ (r : KeyframeRow). r.ticker ≡ b.ticker) rs
own_tickers as_of b [] h = tt
own_tickers as_of b (r ∷ rs) h = (h.0.0, own_tickers as_of b rs h.1)

module _ (as_of : ℕ) where
  groups : List Book → Dict String (List KeyframeRow)
  groups [] = []
  groups (b ∷ bs) = (b.ticker, to_keyframe as_of b) ∷ groups bs

  group_rows-keyframe_rows :
      (g : Dict String (List KeyframeRow)) (bs : List Book)
      → IsDistinct (by_ticker bs)
      → AreNew g bs
      → group_rows g (keyframe_rows as_of bs) ≡ g ++ groups bs
  unfolding groups
  group_rows-keyframe_rows g [] h k = unfold group_rows in simp append-nil
  group_rows-keyframe_rows g (b ∷ bs) h k =
      let (r, rs, e, own, all) = to_keyframe-Own as_of b in
      rw e (
        group_rows-append b.ticker g k.0 r rs (keyframe_rows as_of bs) own.0
          (own_tickers as_of b rs all)
        ∙ group_rows-keyframe_rows (g ++ (b.ticker, r ∷ rs) ∷ []) bs h.1
            (AreNew-append b.ticker (r ∷ rs) g bs h.0 k.1)
        ∙ simp append_assoc)

  -- A group of rows that is a book's keyframe, after the books before it.
  books_of_groups-to_keyframe :
      (b : Book) (gs : Dict String (List KeyframeRow)) (acc : Dict String Book)
      → (r : KeyframeRow) × IsOwnRow as_of b r
        × (books_of_groups ((b.ticker, to_keyframe as_of b) ∷ gs) acc ≡ (
            book_of_rows b.ticker r (to_keyframe as_of b) >>= λ b'.
            books_of_groups gs (put b.ticker b' acc)))
  unfolding books_of_groups
  books_of_groups-to_keyframe b gs acc =
      let (r, rs, e, own, all) = to_keyframe-Own as_of b in (r, own, rw e refl)

  abbrev pub AreSound : List Book → Type 0
  AreSound = All λ b. IsWellFormed b × IsUncrossed b.bids b.asks

  books_of_groups-same :
      (acc : Dict String Book) (bs : List Book)
      → IsDistinct (by_ticker bs)
      → AreNew acc bs
      → AreSound bs
      → (out : Dict String Book) × (books_of_groups (groups bs) acc ≡ ok (acc ++ out))
        × AreSameBooks bs out
  unfolding groups
  books_of_groups-same acc [] d n h = ([], unfold books_of_groups in simp append-nil, tt)
  books_of_groups-same acc (b ∷ bs) d n h =
      let (r, own, e) = books_of_groups-to_keyframe b (groups bs) acc in
      next r e _ (book_of_rows-same as_of b r own h.0.0 h.0.1) refl (λ b'.
        books_of_groups-same (acc ++ (b.ticker, b') ∷ []) bs d.1
          (AreNew-append b.ticker b' acc bs d.0 n.1) h.1)
    where
      next :
          (r : KeyframeRow)
          → (books_of_groups ((b.ticker, to_keyframe as_of b) ∷ groups bs) acc ≡ (
              book_of_rows b.ticker r (to_keyframe as_of b) >>= λ b'.
              books_of_groups (groups bs) (put b.ticker b' acc)))
          → (x : Result Violation Book) → IsRebuilt b x
          → book_of_rows b.ticker r (to_keyframe as_of b) ≡ x
          → ((b' : Book)
              → (out : Dict String Book) × (books_of_groups (groups bs) (acc ++ (b.ticker, b') ∷ [])
                  ≡ ok ((acc ++ (b.ticker, b') ∷ []) ++ out))
                × AreSameBooks bs out)
          → (out : Dict String Book) × (books_of_groups
                ((b.ticker, to_keyframe as_of b) ∷ groups bs)
                acc
              ≡ ok (acc ++ out))
            × AreSameBooks (b ∷ bs) out
      next r e (err v) s f rest = elim s [ ]
      next r e (ok b') s f rest =
          let (out, g, same) = rest b' in
          (
            (b.ticker, b') ∷ out,
            e ∙ rw f (rw (put_new b.ticker b' acc n.0) (g ∙ simp append_assoc)),
            (refl, s, same),
          )

  books_of_groups-crossed :
      (bs cs : List Book) (b : Book) (acc : Dict String Book)
      → ¬ IsUncrossed b.bids b.asks
      → (v : Violation) × (books_of_groups (groups (bs ++ b ∷ cs)) acc ≡ err v)
  unfolding groups
  books_of_groups-crossed [] cs b acc c =
      let (r, own, e) = books_of_groups-to_keyframe b (groups cs) acc in
      let (v, f) = book_of_rows-crossed as_of b r own c in (v, e ∙ rw f refl)
  books_of_groups-crossed (a ∷ bs) cs b acc c =
      let (r, own, e) = books_of_groups-to_keyframe a (groups (bs ++ b ∷ cs)) acc in
      next r e _ refl (λ a'. books_of_groups-crossed bs cs b (put a.ticker a' acc) c)
    where
      next :
          (r : KeyframeRow)
          → (books_of_groups ((a.ticker, to_keyframe as_of a) ∷ groups (bs ++ b ∷ cs)) acc ≡ (
              book_of_rows a.ticker r (to_keyframe as_of a) >>= λ a'.
              books_of_groups (groups (bs ++ b ∷ cs)) (put a.ticker a' acc)))
          → (x : Result Violation Book) → book_of_rows a.ticker r (to_keyframe as_of a) ≡ x
          → ((a' : Book)
              → (v : Violation) × (books_of_groups (groups (bs ++ b ∷ cs)) (put a.ticker a' acc)
                  ≡ err v))
          → (v : Violation) × (books_of_groups
                ((a.ticker, to_keyframe as_of a) ∷ groups (bs ++ b ∷ cs))
                acc
              ≡ err v)
      next r e (err v) f rest = (v, e ∙ rw f refl)
      next r e (ok a') f rest = let (v, g) = rest a' in (v, e ∙ rw f g)

  AreNew-nil : (bs : List Book) → AreNew {V = List KeyframeRow} [] bs
  unfolding lookup
  AreNew-nil [] = tt
  AreNew-nil (b ∷ bs) = (refl, AreNew-nil bs)

  AreNew-nil_books : (bs : List Book) → AreNew {V = Book} [] bs
  unfolding lookup
  AreNew-nil_books [] = tt
  AreNew-nil_books (b ∷ bs) = (refl, AreNew-nil_books bs)

  -- Rebuilding from the rows written for well-formed books of distinct markets, none of them crossed,
  -- succeeds and gives, in the same order, one book for each under its ticker: with its count at
  -- every price on both sides, its best prices, its stale flag and its time.
  pub books_from_keyframe_rows-same :
      (bs : List Book)
      → IsDistinct (by_ticker bs)
      → AreSound bs
      → (out : Dict String Book) × (books_from_keyframe_rows (keyframe_rows as_of bs) ≡ ok out)
        × AreSameBooks bs out
  unfolding books_from_keyframe_rows
  books_from_keyframe_rows-same bs d h =
      let (out, e, same) = books_of_groups-same [] bs d (AreNew-nil_books bs) h in
      (out, rw (group_rows-keyframe_rows [] bs d (AreNew-nil bs)) e, same)

  -- One crossed book among books of distinct markets makes the rows of all of them unreadable:
  -- rebuilding raises, whatever the other books are.
  pub books_from_keyframe_rows-crossed :
      (bs cs : List Book) (b : Book)
      → IsDistinct (by_ticker (bs ++ b ∷ cs))
      → ¬ IsUncrossed b.bids b.asks
      → (v : Violation) × (books_from_keyframe_rows (keyframe_rows as_of (bs ++ b ∷ cs)) ≡ err v)
  unfolding books_from_keyframe_rows
  books_from_keyframe_rows-crossed bs cs b d c =
      let (v, e) = books_of_groups-crossed bs cs b [] c in
      (v, rw (group_rows-keyframe_rows [] (bs ++ b ∷ cs) d (AreNew-nil (bs ++ b ∷ cs))) e)
