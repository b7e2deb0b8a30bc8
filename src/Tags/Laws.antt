-- ===== src/Tags/Laws.antt =====
-- The shape of parsed tags; tags written out and read again.
use purels.Base.{
  All, All-append, All-append_right, Bool-cases, List, [], ap, append-nil, append_assoc, arith,
  false, inl, inr, refl, sym, ◌++◌, ◌||◌, ◌↔◌, ◌∙◌, ◌∷◌, ◌≡◌, ◌≢◌, ◌⊎◌,
}
use purels.Js.Text.{Text, includes, is_empty, join, split_runs, text, trim}
use purels.Js.Text.Equality.{In, includes_iff, same_iff}
use purels.Js.Text.Splitting.{HasNo, IsFilled, split_runs-HasNo, split_runs-join}
use purels.Js.Text.Trimming.{All-trim, IsSolid, trim_of_IsSolid}
use purels.Tags.{add_name, collect, is_separator, parse_tags}

-- A tag is not empty and holds no comma and no white space.
abbrev pub IsTag : Text → Type 0
IsTag s = IsFilled is_separator s

abbrev pub IsNodup : List Text → Type 0
IsNodup [] = Unit
IsNodup (x ∷ xs) = All (λ y. x ≢ y) xs × IsNodup xs

pub record IsTagList (tags : List Text) : Type 0 where
  pub clean : All IsTag tags
  pub nodup : IsNodup tags

IsSolid-of_HasNo : (s : Text) → HasNo is_separator s → IsSolid s
unfolding is_separator
IsSolid-of_HasNo [] h = tt
IsSolid-of_HasNo (c ∷ s) (h, hs) = (ground arith, IsSolid-of_HasNo s hs)

All-ne_of_not_includes : (xs : List Text) (s : Text) → includes xs s ≡ false → All (λ y. y ≢ s) xs
unfolding includes
All-ne_of_not_includes [] s h = tt
All-ne_of_not_includes (x ∷ xs) s h =
    (ground (arith, same_iff x s), All-ne_of_not_includes xs s (ground arith))

IsNodup-concat :
    (xs : List Text) (s : Text) → IsNodup xs → All (λ y. y ≢ s) xs → IsNodup (xs ++ (s ∷ []))
IsNodup-concat [] s h k = (tt, tt)
IsNodup-concat (x ∷ xs) s (h, hs) (k, ks) =
    (All-append (λ y. x ≢ y) xs (s ∷ []) h (k, tt), IsNodup-concat xs s hs ks)

add_name-IsTagList :
    (seen : List Text) (name : Text)
    → IsTagList seen
    → HasNo is_separator name
    → IsTagList (add_name seen name)
unfolding add_name
add_name-IsTagList seen name t h = elim (Bool-cases (is_empty name || includes seen name)) [
  | inl skip ↦ rw skip t
  | inr new ↦ rw new (record {
    clean = All-append IsTag seen (name ∷ []) t.clean ((ground arith, h), tt);
    nodup = IsNodup-concat seen name t.nodup (All-ne_of_not_includes seen name (ground arith));
  })
]

collect-IsTagList :
    (seen parts : List Text)
    → IsTagList seen
    → All (HasNo is_separator) parts
    → IsTagList (collect seen parts)
unfolding collect
collect-IsTagList seen [] t h = t
collect-IsTagList seen (part ∷ parts) t (h, hs) =
    collect-IsTagList (add_name seen (trim part)) parts
      (add_name-IsTagList seen (trim part) t (All-trim (λ c. is_separator c ≡ false) part h)) hs

-- The parsed tags are not empty, hold no comma and no white space, and none occurs twice.
pub parse_tags-IsTagList : (raw : Text) → IsTagList (parse_tags raw)
unfolding parse_tags
parse_tags-IsTagList raw =
    collect-IsTagList [] _ (record { clean = tt; nodup = tt })
      (split_runs-HasNo is_separator false raw)

not_includes :
    (seen : List Text) (name : Text) (rest : List Text)
    → IsNodup (seen ++ (name ∷ rest))
    → includes seen name ≡ false
unfolding includes
not_includes [] name rest h = refl
not_includes (x ∷ seen) name rest (h, hs) = ground (
  arith,
  same_iff x name,
  not_includes seen name rest hs,
  (All-append_right (λ y. x ≢ y) seen (name ∷ rest) h).0,
)

collect_of_clean :
    (seen tags : List Text)
    → All IsTag tags
    → IsNodup (seen ++ tags)
    → collect seen tags ≡ seen ++ tags
unfolding collect add_name
collect_of_clean seen [] h n = sym (append-nil seen)
collect_of_clean seen (tag ∷ tags) (h, hs) n =
    rw (trim_of_IsSolid tag (IsSolid-of_HasNo tag h.1), h.0, not_includes seen tag tags n)
      (collect_of_clean (seen ++ (tag ∷ [])) tags hs (rw append_assoc n)
        ∙ append_assoc seen (tag ∷ []) tags)

split_runs-join_tags :
    (tags : List Text)
    → All IsTag tags
    → collect [] (split_runs is_separator false (join (text ",") tags)) ≡ collect [] tags
split_runs-join_tags [] h = unfold split_runs collect add_name join trim in refl
split_runs-join_tags (tag ∷ tags) h =
    ap (collect [])
      (split_runs-join is_separator b',' tag tags false (unfold is_separator in refl) h)

-- A list of distinct tags, none empty and none with a comma or white space, is read back from
-- its tags joined by commas.
pub parse_tags-join : (tags : List Text) → IsTagList tags → parse_tags (join (text ",") tags) ≡ tags
unfolding parse_tags
parse_tags-join tags t =
    split_runs-join_tags tags t.clean ∙ collect_of_clean [] tags t.clean t.nodup

In-concat : (s x : Text) (xs : List Text) → In s (xs ++ (x ∷ [])) ↔ (In s xs ⊎ (x ≡ s))
In-concat s x [] = ground arith
In-concat s x (y ∷ xs) = ground (arith, In-concat s x xs)

In-add_name :
    (seen : List Text) (name s : Text)
    → In s (add_name seen name) ↔ (In s seen ⊎ ((is_empty s ≡ false) × (name ≡ s)))
unfolding add_name
In-add_name seen name s =
    ground (arith, In-concat s name seen, includes_iff seen s, includes_iff seen name)

In-collect :
    (seen parts : List Text) (s : Text)
    → All (HasNo is_separator) parts
    → In s (collect seen parts) ↔ (In s seen ⊎ ((is_empty s ≡ false) × In s parts))
unfolding collect
In-collect seen [] s h = ground arith
In-collect seen (part ∷ parts) s (h, hs) =
    rw (trim_of_IsSolid part (IsSolid-of_HasNo part h))
      (ground (arith, In-collect (add_name seen part) parts s hs, In-add_name seen part s))

-- A text is among the parsed tags exactly when it is a part between separators of the line and
-- not empty.
pub In-parse_tags :
    (raw s : Text)
    → In s (parse_tags raw) ↔ ((is_empty s ≡ false) × In s (split_runs is_separator false raw))
unfolding parse_tags
In-parse_tags raw s = ground (
  arith,
  In-collect [] (split_runs is_separator false raw) s (split_runs-HasNo is_separator false raw),
)
