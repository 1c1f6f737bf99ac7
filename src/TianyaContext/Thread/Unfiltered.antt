-- ===== src/TianyaContext/Thread/Unfiltered.antt =====
-- With the filter off, all chunks are kept: they are the posts by the author.
use mathlib.Core.List.{map-append}
use tianya.Prelude.{
  ◌≡◌, refl, ap, ◌∙◌, sym, Bool, true, false, List, [], ◌∷◌, ◌++◌, map, inl, inr, Bool-cases,
}
use tianya.Text.{Text, equal}
use tianya.Boost.{Boost}
use tianya.TianyaContext.Thread.{
  Part, other, naming, by, counting, post, Known, note, name_author, author_after, known_after,
  posts_of, chunks_of, kept, said, written,
}
use tianya.TianyaContext.Thread.Pages.{
  PageText, page_author, page_posts, page_known, page_chunks, thread_posts, thread_chunks,
}

abbrev all_kept : List Text → List (Text × Bool)
all_kept = map (λ s. (s, true))

kept-all_kept : (ps : List Text) → kept (all_kept ps) ≡ ps
kept-all_kept [] = refl
kept-all_kept (p ∷ ps) = ap (λ x. p ∷ x) (kept-all_kept ps)

said-all_kept : (ps : List Text) → said (all_kept ps) ≡ ps
said-all_kept [] = refl
said-all_kept (p ∷ ps) = ap (λ x. p ∷ x) (said-all_kept ps)

chunks_of_off :
    (b : Boost) (k : Known) (parts : List Part)
    → chunks_of false b k parts ≡ all_kept (posts_of b k.author parts)
chunks_of_off b k [] = refl
chunks_of_off b k (other l ∷ parts) = chunks_of_off b k parts
chunks_of_off b k (naming l ∷ parts) = chunks_of_off b k parts
chunks_of_off b k (by l name ∷ parts) = chunks_of_off b (name_author b name k) parts
chunks_of_off b k (counting l ∷ parts) = chunks_of_off b k parts
chunks_of_off b k (post who l d ∷ parts) = elim (Bool-cases (equal who k.author)) [
  | inl e ↦ rw e (ap (λ x. (written b d, true) ∷ x) (chunks_of_off b (note false who k) parts))
  | inr e ↦ rw e (chunks_of_off b (note false who k) parts)
]

known_after_author :
    (b : Boost) (k : Known) (parts : List Part)
    → (known_after false b k parts).author ≡ author_after b k.author parts
known_after_author b k [] = refl
known_after_author b k (other l ∷ parts) = known_after_author b k parts
known_after_author b k (naming l ∷ parts) = known_after_author b k parts
known_after_author b k (by l name ∷ parts) = known_after_author b (name_author b name k) parts
known_after_author b k (counting l ∷ parts) = known_after_author b k parts
known_after_author b k (post who l d ∷ parts) = known_after_author b (note false who k) parts

page_chunks_off :
    (b : Boost) (k : Known) (g : PageText)
    → page_chunks false b k g ≡ all_kept (page_posts b k.author g)
page_chunks_off b k g =
    let c = known_after false b k g.parts in
    ap (λ x. x ++ chunks_of false b c g.between) (chunks_of_off b k g.parts)
    ∙ ap (λ x. all_kept (posts_of b k.author g.parts) ++ x)
        (chunks_of_off b c g.between
          ∙ ap (λ a. all_kept (posts_of b a g.between)) (known_after_author b k g.parts))
    ∙ sym (
        map-append (λ s. (s, true)) (posts_of b k.author g.parts)
          (posts_of b (author_after b k.author g.parts) g.between))

page_known_author :
    (b : Boost) (k : Known) (g : PageText)
    → (page_known false b k g).author ≡ page_author b k.author g
page_known_author b k g =
    known_after_author b (known_after false b k g.parts) g.between
    ∙ ap (λ a. author_after b a g.between) (known_after_author b k g.parts)

thread_chunks_off :
    (b : Boost) (k : Known) (pages : List PageText) (last : List Part)
    → thread_chunks false b k pages last ≡ all_kept (thread_posts b k.author pages last)
thread_chunks_off b k [] last = chunks_of_off b k last
thread_chunks_off b k (g ∷ pages) last =
    let c = page_known false b k g in
    ap (λ x. x ++ thread_chunks false b c pages last) (page_chunks_off b k g)
    ∙ ap (λ x. all_kept (page_posts b k.author g) ++ x)
        (thread_chunks_off b c pages last
          ∙ ap (λ a. all_kept (thread_posts b a pages last)) (page_known_author b k g))
    ∙ sym (
        map-append (λ s. (s, true)) (page_posts b k.author g)
          (thread_posts b (page_author b k.author g) pages last))

pub kept-thread_chunks :
    (b : Boost) (k : Known) (pages : List PageText) (last : List Part)
    → kept (thread_chunks false b k pages last) ≡ thread_posts b k.author pages last
kept-thread_chunks b k pages last =
    ap kept (thread_chunks_off b k pages last) ∙ kept-all_kept (thread_posts b k.author pages last)

pub said-thread_chunks :
    (b : Boost) (k : Known) (pages : List PageText) (last : List Part)
    → said (thread_chunks false b k pages last) ≡ thread_posts b k.author pages last
said-thread_chunks b k pages last =
    ap said (thread_chunks_off b k pages last) ∙ said-all_kept (thread_posts b k.author pages last)
