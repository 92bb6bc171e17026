-- ===== src/Contextmgr/Loader/Pages.antt =====
-- The pages of a conversation (internal/contextmgr/loader.go).
use elbot.Base.{
  if_true, subst, ℤ, pos, pos_part, ◌%◌, ◌^◌, ltb, ℕ, zero, suc, ◌+◌, ◌-◌, ◌*◌, ◌/◌, ◌≤◌, ◌<◌, ◌≡◌,
  refl, sym, ap, ◌∙◌, String, true, false, List, [], ◌∷◌, ◌++◌, All, if◌then◌else◌, ltb, leb, ◌==◌,
  length, take, drop, min, max, arith, if_elim, length-append, length-take, length-drop,
  drop-append_past, drop-append_within, take-append_within, take-append_past, drop-nil, take-nil,
  append_assoc, append-nil, reverse, reverse-append, take-add, take_all, drop_all, lt-div-mul-add,
  mul-le-mul_right, add-mul,
}
use elbot.Contextmgr.Loader.{
  page_count, negated, Result, ok, err, Store, HistoryRange, History, MessagePage, total_count,
  fetch, page_of, load_message_page, max_fork_depth, checkpoint_missing,
}
use elbot.Contextmgr.Loader.Lineage.{Conversation, collect-Conversation}
use elbot.Contextmgr.Loader.Laws.{Lawful, IsCounted, collect-IsCounted, rows_of}

-- Reading a window that begins in the first of two lists.
window_skip :
    {A : Type 0} (n k : ℕ) (s t : List A)
    → length s ≤ k
    → take n (drop k (s ++ t)) ≡ take n (drop (k - length s) t)
window_skip n k s t h = ap (take n) (drop-append_past k s t h)

window_inside :
    {A : Type 0} (n k : ℕ) (s t : List A)
    → k < length s
    → n ≤ length s - k
    → take n (drop k (s ++ t)) ≡ take n (drop k s)
window_inside n k s t h p =
    ap (take n) (drop-append_within k s t (omega arith))
    ∙ take-append_within n (drop k s) t (omega (arith, length-drop k s))

window_across :
    {A : Type 0} (n k : ℕ) (s t : List A)
    → k < length s
    → length s - k < n
    → take n (drop k (s ++ t)) ≡ take n (drop k s) ++ take (n - (length s - k)) t
window_across n k s t h p =
    ap (take n) (drop-append_within k s t (omega arith))
    ∙ take-append_past n (drop k s) t (omega (arith, length-drop k s))
    ∙ ap (λ l. l ++ take (n - length (drop k s)) t)
        (sym (take_all n (drop k s) (omega (arith, length-drop k s))))
    ∙ ap (λ j. take n (drop k s) ++ take (n - j) t) (length-drop k s)

-- How many pages of this size some messages take.
abbrev pub pages_in : {A : Type 0} → List A → ℕ → ℕ
pages_in l size = (length l + size - 1) / size

-- They hold all of them.
pages_in-enough :
    {A : Type 0} (l : List A) (size : ℕ) → 1 ≤ size → length l ≤ pages_in l size * size
pages_in-enough l size h =
    let q = lt-div-mul-add {a = length l + size - 1} {b = size} (omega (arith, h)) in
    omega (arith, q, h)

page_count-pages_in :
    (n size : ℕ) → 1 ≤ size → n + size ≤ 2 ^ 63 → page_count n size ≡ pos ((n + size - 1) / size)
unfolding page_count
page_count-pages_in n size h b =
    let same : (n + size - 1) % 2 ^ 64 ≡ n + size - 1 = omega (arith, h, b) in
    ap (λ j. if ltb j (2 ^ 63) then pos (j / size) else negated ((2 ^ 64 - j) / size)) same
    ∙ if_true {b = ltb (n + size - 1) (2 ^ 63)} (ground (arith, h, b)) _ _

-- A page of a conversation whose messages are given newest first.
abbrev pub page_at : {A : Type 0} → List A → ℕ → ℕ → MessagePage A
page_at l page size = record {
  messages = reverse (take size (drop ((page - 1) * size) l));
  total_pages = pos (pages_in l size);
}

module _ {Message : Type 0} (store : Store Message) (rows : String → String → List Message)
    (laws : Lawful store rows) where
  total_count-rows_of :
      (ranges : List HistoryRange)
      → All (IsCounted store) ranges
      → total_count ranges ≡ length (rows_of rows ranges)
  unfolding total_count rows_of
  total_count-rows_of [] c = refl
  total_count-rows_of (r ∷ rest) c = omega (
    arith,
    laws.counted r.id r.until r.count c.0,
    total_count-rows_of rest c.1,
    length-append (rows r.id r.until) (rows_of rows rest),
  )

  -- What a read is followed by.
  read_on : ℕ → List HistoryRange → List Message → Result (List Message) → Result (List Message)
  read_on size rest out (err e) = err e
  read_on size rest out (ok more) =
      let later = fetch store size rest 0 (out ++ more) in
      if length (out ++ more) == size then ok (out ++ more) else later

  read_on-window :
      (size : ℕ) (rest : List HistoryRange) (offset : ℕ) (out s l more : List Message)
      → ((out' : List Message)
          → length out' < size
          → fetch store size rest 0 out' ≡ ok (out' ++ take (size - length out') l))
      → more ≡ take (size - length out) (drop offset s)
      → offset < length s
      → length out < size
      → read_on size rest out (ok more)
        ≡ ok (out ++ take (size - length out) (drop offset (s ++ l)))
  unfolding read_on
  read_on-window size rest offset out s l more ih q i h =
      let n = size - length out in
      let long : length (out ++ more) ≡ length out + min n (length s - offset) =
        length-append out more
        ∙ ap (λ j. length out + j)
            (ap length q ∙ length-take n (drop offset s) ∙ ap (min n) (length-drop offset s)) in
      if_elim (λ (o : Result (List Message)). o ≡ ok (out ++ take n (drop offset (s ++ l))))
        (length (out ++ more) == size) _ _
        (λ y.
          ap (λ r. ok (out ++ r))
            (q ∙ sym (window_inside n offset s l i (ground (arith, y, long)))))
        (λ y.
          ih (out ++ more) (ground (arith, y, long))
          ∙ ap ok (
              append_assoc out more _
              ∙ ap (λ r. out ++ r)
                  (ap (λ j. more ++ take j l) (ground (arith, y, long))
                    ∙ ap (λ r. r ++ take (n - (length s - offset)) l) q
                    ∙ sym (window_across n offset s l i (ground (arith, y, long))))))

  -- The second loop reads a window of the conversation, behind the rows so far.
  fetch-window :
      (size : ℕ) (ranges : List HistoryRange) (offset : ℕ) (out : List Message)
      → All (IsCounted store) ranges
      → length out < size
      → fetch store size ranges offset out
        ≡ ok (out ++ take (size - length out) (drop offset (rows_of rows ranges)))
  unfolding fetch rows_of read_on
  fetch-window size [] offset out c h = ap ok (
      sym (append-nil out)
      ∙ ap (λ l. out ++ l) (sym (take-nil (size - length out)))
      ∙ ap (λ l. out ++ take (size - length out) l) (sym (drop-nil offset)))
  fetch-window size (r ∷ rest) offset out c h =
      if_elim
        (λ (o : Result (List Message)).
          o ≡ ok (out ++ take n (drop offset (s ++ rows_of rows rest))))
        (leb r.count offset) _ _
        (λ y.
          fetch-window size rest (offset - r.count) out c.1 h
          ∙ ap (λ j. ok (out ++ take n (drop (offset - j) (rows_of rows rest)))) counted
          ∙ ap (λ l. ok (out ++ l)) (sym (window_skip n offset s (rows_of rows rest) (past y))))
        (λ y.
          ap (read_on size rest out) (laws.listed r.id r.until r.count n offset c.0)
          ∙ read_on-window size rest offset out s (rows_of rows rest) (take n (drop offset s))
              (λ more k. fetch-window size rest 0 more c.1 k) refl (within y) h)
    where
      n : ℕ
      n = size - length out

      s : List Message
      s = rows r.id r.until

      counted : r.count ≡ length s
      counted = laws.counted r.id r.until r.count c.0

      past : leb r.count offset ≡ true → length s ≤ offset
      past y = ground (arith, y, counted)

      within : leb r.count offset ≡ false → offset < length s
      within y = ground (arith, y, counted)

  page_of-window :
      (ranges : List HistoryRange) (page size : ℕ)
      → All (IsCounted store) ranges
      → 1 ≤ page
      → 1 ≤ size
      → length (rows_of rows ranges) + size ≤ 2 ^ 63
      → page_of store ranges page size ≡ ok (page_at (rows_of rows ranges) page size)
  unfolding page_of
  page_of-window ranges page size c p h b =
      let l = rows_of rows ranges in
      ap
        (λ (total : ℤ).
          let rows : Result (MessagePage Message) =
            elim (fetch store size ranges ((page - 1) * size) []) [
              | err e ↦ err e
              | ok rows ↦ ok (record { messages = reverse rows; total_pages = total })
            ] in
          if ltb (max 1 (pos_part total)) page
          then ok (record { messages = []; total_pages = total })
          else rows)
        (ap (λ n. page_count n size) (total_count-rows_of ranges c)
          ∙ page_count-pages_in (length l) size h b)
      ∙ if_elim (λ (o : Result (MessagePage Message)). o ≡ ok (page_at l page size))
          (ltb (max 1 (pages_in l size)) page) _ _
          (λ y. ap shown (
            sym (take-nil size) ∙ ap (take size) (sym (drop_all ((page - 1) * size) l (beyond y)))))
          (λ n.
            ap then_shown (fetch-window size ranges ((page - 1) * size) [] c (omega (arith, h)))
            ∙ ap (λ j. shown (take j (drop ((page - 1) * size) l))) whole)
    where
      whole : size - 0 ≡ size
      whole = omega arith

      shown : List Message → Result (MessagePage Message)
      shown m =
          ok (record {
            messages = reverse m;
            total_pages = pos (pages_in (rows_of rows ranges) size);
          })

      then_shown : Result (List Message) → Result (MessagePage Message)
      then_shown (err e) = err e
      then_shown (ok m) = shown m

      beyond :
          ltb (max 1 (pages_in (rows_of rows ranges) size)) page ≡ true
          → length (rows_of rows ranges) ≤ (page - 1) * size
      beyond y = omega (
        arith,
        pages_in-enough (rows_of rows ranges) size h,
        mul-le-mul_right {m = pages_in (rows_of rows ranges) size} {n = page - 1} size
            (ground (arith, y)),
      )

  -- A page holds the messages of the conversation from its number on, counted from the newest, in the order
  -- of the conversation, where the sessions are no more than the loader follows and the messages and a page
  -- more are counted by an int.
  pub load_message_page-window :
      (id : String) (l : List Message) (page size : ℕ)
      → Conversation store rows (max_fork_depth + 1) id "" l
      → 1 ≤ page
      → 1 ≤ size
      → length l + size ≤ 2 ^ 63
      → load_message_page store id page size ≡ ok (page_at l page size)
  unfolding load_message_page
  load_message_page-window id l page size t p h b =
      let (ranges, u, e, q) = collect-Conversation store rows false t in
      ap paged e
      ∙ page_of-window ranges page size
          (collect-IsCounted store (max_fork_depth + 1) id "" false _ e) p h
          (subst (λ (r : List Message). length r + size ≤ 2 ^ 63) (sym q) b)
      ∙ ap (λ r. ok (page_at r page size)) q
    where
      paged : Result History → Result (MessagePage Message)
      paged (err e) = err e
      paged (ok h) =
          if h.inherited_cutoff
          then err (checkpoint_missing h.until)
          else page_of store h.ranges page size

  messages_of : Result (MessagePage Message) → List Message
  messages_of (err e) = []
  messages_of (ok p) = p.messages

  -- The pages from the n-th to the newest.
  unfoldable pub joined_pages : String → ℕ → ℕ → List Message
  unfolding messages_of
  joined_pages id size zero = []
  joined_pages id size (suc n) =
      messages_of (load_message_page store id (n + 1) size) ++ joined_pages id size n

  joined_pages-take :
      (id : String) (l : List Message) (size n : ℕ)
      → Conversation store rows (max_fork_depth + 1) id "" l
      → 1 ≤ size
      → length l + size ≤ 2 ^ 63
      → joined_pages id size n ≡ reverse (take (n * size) l)
  unfolding joined_pages messages_of
  joined_pages-take id l size zero f h b =
      let none_yet : 0 ≡ zero * size = omega arith in ap (λ j. reverse (take j l)) none_yet
  joined_pages-take id l size (suc n) f h b =
      let back : n + 1 - 1 ≡ n = omega arith in
      let more : n * size + size ≡ suc n * size = omega (arith, add-mul n 1 size) in
      ap (λ o. messages_of o ++ joined_pages id size n)
        (load_message_page-window id l (n + 1) size f (omega arith) h b)
      ∙ ap (λ j. reverse (take size (drop (j * size) l)) ++ joined_pages id size n) back
      ∙ ap (λ r. reverse (take size (drop (n * size) l)) ++ r) (joined_pages-take id l size n f h b)
      ∙ sym (reverse-append (take (n * size) l) (take size (drop (n * size) l)))
      ∙ ap reverse (sym (take-add (n * size) size l))
      ∙ ap (λ j. reverse (take j l)) more

  -- All pages of a session, from the last to the first, are its conversation: none of it is missing or
  -- doubled, where the sessions are no more than the loader follows and the messages and a page more are
  -- counted by an int.
  pub joined_pages-all :
      (id : String) (l : List Message) (size : ℕ)
      → Conversation store rows (max_fork_depth + 1) id "" l
      → 1 ≤ size
      → length l + size ≤ 2 ^ 63
      → joined_pages id size (pages_in l size) ≡ reverse l
  joined_pages-all id l size f h b =
      joined_pages-take id l size (pages_in l size) f h b
      ∙ ap reverse (take_all _ l (pages_in-enough l size h))
