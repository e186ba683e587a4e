-- ===== src/Api/Path/Laws.antt =====
-- The path of a status request is parsed into its two parts.
use Prim.Native.Char.{Char}
use mathlib.Core.List.{reverse, reverse-append, reverse-reverse, reverse-cons}
use text.Mathlib.TextLemmas.{nil-append, cons-append}
use architecture_playground.Base.{
  String, ◌<>◌, ◌≡◌, ◌≢◌, refl, ap, sym, ◌∙◌, false, List, [], ◌∷◌, ◌++◌, chars, of_chars,
}
use architecture_playground.Api.Path.{is_slash, drop_slashes, trim_slashes, split_slash, path_parts}

-- No slash among the characters.
abbrev pub NoSlash : List Char → Type 0
NoSlash [] = Unit
NoSlash (c ∷ cs) = (is_slash c ≡ false) × NoSlash cs

split_slash-NoSlash : (cs : List Char) → NoSlash cs → split_slash cs ≡ cs ∷ []
unfolding split_slash
split_slash-NoSlash [] h = refl
split_slash-NoSlash (c ∷ cs) h = rw (split_slash-NoSlash cs h.1, h.0) refl

chars-append : (s t : String) → chars (s <> t) ≡ chars s ++ chars t
chars-append String.[] t = ap chars (nil-append t)
chars-append (String.◌∷◌ c s) t = ap chars (cons-append c s t) ∙ ap (λ r. c ∷ r) (chars-append s t)

of_chars-chars : (s : String) → of_chars (chars s) ≡ s
of_chars-chars String.[] = refl
of_chars-chars (String.◌∷◌ c s) = ap (λ r. String.◌∷◌ c r) (of_chars-chars s)

NoSlash-append : (xs ys : List Char) → NoSlash xs → NoSlash ys → NoSlash (xs ++ ys)
NoSlash-append [] ys h k = k
NoSlash-append (x ∷ xs) ys h k = (h.0, NoSlash-append xs ys h.1 k)

NoSlash-reverse : (cs : List Char) → NoSlash cs → NoSlash (reverse cs)
NoSlash-reverse [] h = tt
NoSlash-reverse (c ∷ cs) h =
    rw (reverse-cons c cs) (NoSlash-append (reverse cs) (c ∷ []) (NoSlash-reverse cs h.1) (h.0, tt))

drop_slashes-NoSlash :
    (xs ys : List Char) → NoSlash xs → xs ≢ [] → drop_slashes (xs ++ ys) ≡ xs ++ ys
unfolding drop_slashes
drop_slashes-NoSlash [] ys h k = absurd (k refl)
drop_slashes-NoSlash (x ∷ xs) ys h k = rw h.0 refl

reverse-ne-nil : (cs : List Char) → cs ≢ [] → reverse cs ≢ []
reverse-ne-nil cs h e = h (sym (reverse-reverse cs) ∙ ap reverse e)

trim_slashes-tasks :
    (cs : List Char)
    → NoSlash cs
    → cs ≢ []
    → trim_slashes (chars "/tasks/" ++ cs) ≡ chars "tasks/" ++ cs
unfolding trim_slashes drop_slashes
trim_slashes-tasks cs h k =
    ap reverse (
      ap drop_slashes (reverse-append (chars "tasks/") cs)
      ∙ drop_slashes-NoSlash (reverse cs) (reverse (chars "tasks/")) (NoSlash-reverse cs h)
          (reverse-ne-nil cs k)
      ∙ sym (reverse-append (chars "tasks/") cs))
    ∙ reverse-reverse (chars "tasks/" ++ cs)

chars-ne-nil : (s : String) → s ≢ "" → chars s ≢ []
chars-ne-nil s h e = h (sym (of_chars-chars s) ∙ ap of_chars e)

-- The path "/tasks/" with an ID after it, not empty and without a slash, has the parts "tasks" and
-- that ID.
pub path_parts-tasks :
    (id : String) → NoSlash (chars id) → id ≢ "" → path_parts ("/tasks/" <> id) ≡ "tasks" ∷ id ∷ []
unfolding path_parts split_slash
path_parts-tasks id h k = rw (chars-append "/tasks/" id) (
    rw (trim_slashes-tasks (chars id) h (chars-ne-nil id k))
      (rw (split_slash-NoSlash (chars id) h) (rw (of_chars-chars id) refl)))
