-- ===== src/Uu/Lists/Whole.antt =====
-- GetInventory gives the whole list, and GetMarketLeasePrice the first offers in the window.
use rent_auto.Prelude.{
  ◌<◌, ◌≤◌, length, ltb, not, ap, arith, ℕ, zero, suc, ◌+◌, ◌≡◌, refl, sym, ◌∙◌, Bool, true, false,
  List, [], ◌++◌, append_assoc, ◌≢◌, subst,
}
use rent_auto.Delivery.{Reply, failed, replied}
use rent_auto.Uu.Endpoints.{max_list_pages}
use rent_auto.Uu.Lists.{
  InventoryItem, Reader, too_many_pages, paged, paged_reply, page_done, inventory_page,
  get_inventory,
}

-- The items of the pages from one on: each page is read in turn and holds the full size or more, until
-- one that holds less. What the reading says of going on does not matter here.
pub data Pages {W A : Type 0} (size : ℕ) (read : ℕ → W → W × Reply (List A × Bool))
    : ℕ → W → List A → Type 0 where
  last_page :
      (page : ℕ) (w w' : W) (xs : List A) (on : Bool)
      → read page w ≡ (w', replied (xs, on))
      → length xs < size
      → Pages size read page w xs
  more_pages :
      (page : ℕ) (w w' : W) (xs ys : List A) (on : Bool)
      → read page w ≡ (w', replied (xs, on))
      → size ≤ length xs
      → Pages size read (page + 1) w' ys
      → Pages size read page w (xs ++ ys)

-- the flag of a page tells whether it holds the full size
abbrev IsPaged : {W A : Type 0} → ℕ → (ℕ → W → W × Reply (List A × Bool)) → Type 0
IsPaged {W = W} {A = A} size read =
    (page : ℕ) (w w' : W) (xs : List A) (on : Bool)
    → read page w ≡ (w', replied (xs, on))
    → on ≡ not (ltb (length xs) size)

done-Pages :
    {W A : Type 0} (size : ℕ) (read : ℕ → W → W × Reply (List A × Bool)) (page : ℕ) (w : W)
    (go_on : W → List A → W × Reply (List A)) (out whole : List A) (r : W × Reply (List A × Bool))
    → IsPaged size read
    → read page w ≡ r
    → ((w' : W) (o : List A)
        → (go_on w' o).1 ≡ replied whole
        → (rest : List A) × (whole ≡ o ++ rest) × Pages size read (page + 1) w' rest)
    → (page_done go_on out r).1 ≡ replied whole
    → (rest : List A) × (whole ≡ out ++ rest) × Pages size read page w rest
done-Pages size read page w go_on out whole (w', failed err) paged_by q f h = cc
done-Pages size read page w go_on out whole (w', replied (xs, false)) paged_by q f h =
    let e : out ++ xs ≡ whole = cc in
    let short : length xs < size = ground (arith, paged_by page w w' xs false q) in
    (xs, sym e, last_page page w w' xs false q short)
done-Pages size read page w go_on out whole (w', replied (xs, true)) paged_by q f h =
    let (rest, e, pages) = f w' (out ++ xs) h in
    let enough : size ≤ length xs = ground (arith, paged_by page w w' xs true q) in
    (xs ++ rest, e ∙ append_assoc out xs rest, more_pages page w w' xs rest true q enough pages)

-- where reaching the limit is an error, a list that is returned is whole
paged-Pages :
    {W A : Type 0} (size : ℕ) (read : ℕ → W → W × Reply (List A × Bool))
    (limit : List A → Reply (List A)) (left page : ℕ) (w : W) (out whole : List A)
    → IsPaged size read
    → ((o : List A) → limit o ≢ replied whole)
    → (paged read limit left page w out).1 ≡ replied whole
    → (rest : List A) × (whole ≡ out ++ rest) × Pages size read page w rest
unfolding paged
paged-Pages size read limit zero page w out whole paged_by never h = absurd (never out h)
paged-Pages size read limit (suc left) page w out whole paged_by never h =
    done-Pages size read page w (λ w' o. paged read limit left (page + 1) w' o) out whole
      (read page w) paged_by refl
      (λ w' o. paged-Pages size read limit left (page + 1) w' o whole paged_by never) h

paged_reply-on :
    {W A : Type 0} (size : ℕ) (w w' : W) (r : Reply (List A)) (xs : List A) (on : Bool)
    → ◌≡◌ {A = W × Reply (List A × Bool)} (w, paged_reply size r) (w', replied (xs, on))
    → on ≡ not (ltb (length xs) size)
paged_reply-on size w w' (failed err) xs on h = cc
paged_reply-on size w w' (replied ys) xs on h =
    let same : ys ≡ xs = cc in
    let flag : not (ltb (length ys) size) ≡ on = cc in
    sym flag ∙ ap (λ zs. not (ltb (length zs) size)) same

inventory_page-IsPaged :
    {W F : Type 0} (c : Reader W F) (refresh : Bool) → IsPaged 1000 (inventory_page c refresh)
unfolding inventory_page
inventory_page-IsPaged c refresh page w w' xs on h = paged_reply-on 1000 _ w' _ xs on h

failed-replied : {F : Type 0} (whole o : List (InventoryItem F)) → too_many_pages o ≢ replied whole
failed-replied whole o = λ q. cc

-- An inventory that GetInventory returns is never truncated: it is the items of the pages from the first
-- on, each read after the one before, of which all but the last hold a thousand items or more, and the
-- last holds fewer.
pub get_inventory-Pages :
    {W F : Type 0} (c : Reader W F) (refresh : Bool) (w : W) (whole : List (InventoryItem F))
    → (get_inventory c refresh w).1 ≡ replied whole
    → Pages 1000 (inventory_page c refresh) 1 w whole
unfolding get_inventory
get_inventory-Pages c refresh w whole h =
    let (rest, e, pages) =
      paged-Pages 1000 (inventory_page c refresh) too_many_pages max_list_pages 1 w [] whole
        (inventory_page-IsPaged c refresh) (failed-replied whole) h in
    subst (λ l. Pages 1000 (inventory_page c refresh) 1 w l) (sym e) pages
