-- ===== src/Load/Queue/Puts.antt =====
-- A queue that items are put into, and then drained.
use inference_perf.Prelude.{
  ℕ, zero, suc, ◌+◌, ◌%◌, ◌<◌, ◌≤◌, ◌≡◌, refl, ap, ◌∙◌, true, Option, none, some, List, [], ◌∷◌,
  ◌++◌, map, length, sum, set, get_or, replicate, arith,
}
use inference_perf.Prelude.Int.{pos}
use inference_perf.Load.Queue.{Channel, new_queue, get_channel, put, drain}
use inference_perf.Load.Queue.Drained.{items, InTime, drain-items}

module _ (T : Type 0) where
  -- The puts, each with its item and channel id.
  abbrev pub put_all : List (Channel T) → List (T × Option ℕ) → List (Channel T)
  put_all queues [] = queues
  put_all queues ((item, channel_id) ∷ puts) = put_all (put T queues item channel_id) puts

  -- The copies that the puts make, for a queue with `n` channels.
  abbrev pub copies : ℕ → List (T × Option ℕ) → ℕ
  copies n [] = 0
  copies n ((_, none) ∷ puts) = n + copies n puts
  copies n ((_, some _) ∷ puts) = 1 + copies n puts

  total : List (List T) → ℕ
  total xss = sum (map length xss)

  abbrev AtMost : ℕ → List (List T) → Type 0
  AtMost b [] = Unit
  AtMost b (xs ∷ xss) = (length xs ≤ b) × AtMost b xss

  -- The items of a queue after some more were put.
  record Grown (queues : List (Channel T)) (xss : List (List T)) (b more : ℕ) : Type 0 where
    lists : List (List T)
    same : queues ≡ map (items T) lists
    as_many : length lists ≡ length xss
    counted : total lists ≡ total xss + more
    bounded : AtMost (suc b) lists

  items-snoc : (xs : List T) (x : T) → items T (xs ++ x ∷ []) ≡ items T xs ++ some x ∷ []
  items-snoc [] x = refl
  items-snoc (y ∷ xs) x = ap (λ ys. some y ∷ ys) (items-snoc xs x)

  length-snoc : (xs : List T) (x : T) → length (xs ++ x ∷ []) ≡ suc (length xs)
  length-snoc [] x = refl
  length-snoc (y ∷ xs) x = ap suc (length-snoc xs x)

  -- One item put into each channel.
  put_each :
      (xss : List (List T)) (x : T) (b : ℕ)
      → AtMost b xss
      → Grown (map (λ q. q ++ some x ∷ []) (map (items T) xss)) xss b (length xss + 0)
  unfolding total
  put_each [] x b h = record {
    lists = [];
    same = refl;
    as_many = refl;
    counted = omega arith;
    bounded = tt;
  }
  put_each (xs ∷ xss) x b (few, h) =
      let rest = put_each xss x b h in
      let longer = length-snoc xs x in
      record {
        lists = (xs ++ x ∷ []) ∷ rest.lists;
        same = rw (items-snoc xs x, rest.same) refl;
        as_many = ap suc rest.as_many;
        counted = let c = rest.counted in omega arith;
        bounded = (omega arith, rest.bounded);
      }

  weaken : (xss : List (List T)) (b c : ℕ) → b ≤ c → AtMost b xss → AtMost c xss
  weaken [] b c le h = tt
  weaken (xs ∷ xss) b c le (few, h) = (omega arith, weaken xss b c le h)

  -- One item put into one channel.
  put_at :
      (xss : List (List T)) (i : ℕ) (x : T) (b : ℕ)
      → i < length xss
      → AtMost b xss
      → Grown (set (map (items T) xss) i (get_or (map (items T) xss) i [] ++ some x ∷ [])) xss b 1
  unfolding total
  put_at [] i x b inside h = absurd (omega arith)
  put_at (xs ∷ xss) zero x b inside (few, h) =
      let longer = length-snoc xs x in
      record {
        lists = (xs ++ x ∷ []) ∷ xss;
        same = rw (items-snoc xs x) refl;
        as_many = refl;
        counted = omega arith;
        bounded = (omega arith, weaken xss b (suc b) (omega arith) h);
      }
  put_at (xs ∷ xss) (suc i) x b inside (few, h) =
      let rest = put_at xss i x b (omega arith) h in
      record {
        lists = xs ∷ rest.lists;
        same = ap (λ q. items T xs ∷ q) rest.same;
        as_many = ap suc rest.as_many;
        counted = let c = rest.counted in omega arith;
        bounded = (omega arith, rest.bounded);
      }

  length-queues : (xss : List (List T)) → length (map (items T) xss) ≡ length xss
  length-queues [] = refl
  length-queues (xs ∷ xss) = ap suc (length-queues xss)

  put-Grown :
      (xss : List (List T)) (x : T) (channel_id : Option ℕ) (b : ℕ)
      → 0 < length xss
      → AtMost b xss
      → Grown
          (put T (map (items T) xss) x channel_id)
          xss
          b
          (copies (length xss) ((x, channel_id) ∷ []))
  unfolding put get_channel
  put-Grown xss x none b some_channel h = put_each xss x b h
  put-Grown xss x (some c) b some_channel h =
      rw (length-queues xss) (put_at xss (c % length xss) x b (omega arith) h)

  -- The items of a queue after all puts.
  record Filled (queues : List (Channel T)) (xss : List (List T)) (limit more : ℕ) : Type 0 where
    lists : List (List T)
    same : queues ≡ map (items T) lists
    as_many : length lists ≡ length xss
    counted : total lists ≡ total xss + more
    bounded : AtMost limit lists

  copies-cons :
      (n : ℕ) (x : T) (channel_id : Option ℕ) (puts : List (T × Option ℕ))
      → copies n ((x, channel_id) ∷ puts) ≡ copies n ((x, channel_id) ∷ []) + copies n puts
  copies-cons n x none puts = omega arith
  copies-cons n x (some c) puts = omega arith

  put_all-Filled :
      (queues : List (Channel T)) (xss : List (List T)) (puts : List (T × Option ℕ)) (b limit : ℕ)
      → queues ≡ map (items T) xss
      → 0 < length xss
      → b + length puts ≤ limit
      → AtMost b xss
      → Filled (put_all queues puts) xss limit (copies (length xss) puts)
  put_all-Filled queues xss [] b limit same some_channel le h = record {
    lists = xss;
    same = same;
    as_many = refl;
    counted = omega arith;
    bounded = weaken xss b limit (omega arith) h;
  }
  put_all-Filled queues xss ((x, channel_id) ∷ puts) b limit same some_channel le h =
      let grown = put-Grown xss x channel_id b some_channel h in
      let now = ap (λ q. put T q x channel_id) same ∙ grown.same in
      let many = grown.as_many in
      let rest =
        put_all-Filled (put T queues x channel_id) grown.lists puts (suc b) limit now (omega arith)
          (omega arith) grown.bounded in
      record {
        lists = rest.lists;
        same = rest.same;
        as_many = rest.as_many ∙ many;
        counted =
            let first = grown.counted in
            let later = rest.counted in
            let same_many = ap (λ n. copies n puts) many in
            let both = copies-cons (length xss) x channel_id puts in omega arith;
        bounded = rest.bounded;
      }

  in_time :
      (reads : ℕ → ℕ) (qsize : Channel T → Option ℕ) (xss : List (List T)) (b i : ℕ)
      → ((j : ℕ) → b < reads j)
      → AtMost b xss
      → InTime T reads qsize i xss
  in_time reads qsize [] b i h few = tt
  in_time reads qsize (xs ∷ xss) b i h (first, few) =
      (let soon = h i in omega arith, in_time reads qsize xss b (suc i) h few)

  -- A new queue as lists of items.
  abbrev no_items : ℕ → List (List T)
  no_items n = replicate n []

  new-items : (n : ℕ) → new_queue T n ≡ map (items T) (no_items n)
  unfolding new_queue
  new-items zero = refl
  new-items (suc n) = ap (λ q. [] ∷ q) (new-items n)

  new_lists : (n : ℕ) → (length (no_items n) ≡ n) × (total (no_items n) ≡ 0) × AtMost 0 (no_items n)
  unfolding total
  new_lists zero = (refl, refl, tt)
  new_lists (suc n) =
      let (many, nothing, few) = new_lists n in (ap suc many, omega arith, (omega arith, few))

  -- A queue with at least one channel, into which items were put, each into one channel or into all: a
  -- drain of all channels that could receive more items of each than there were puts leaves every
  -- channel empty, and gives the number of all copies that were put as an exact count, whatever `qsize`
  -- gives.
  pub drain-put_all :
      (reads : ℕ → ℕ) (qsize : Channel T → Option ℕ) (n : ℕ) (puts : List (T × Option ℕ))
      → 0 < n
      → ((i : ℕ) → length puts < reads i)
      → drain T reads qsize (put_all (new_queue T n) puts) none
        ≡ ((pos (copies n puts), true), replicate n [])
  unfolding total
  drain-put_all reads qsize n puts some_channel soon =
      let (many, nothing, few) = new_lists n in
      let filled =
        put_all-Filled (new_queue T n) (no_items n) puts 0 (length puts) (new-items n) (omega arith)
          (omega arith) few in
      let counted = filled.counted in
      let all_copies : sum (map length filled.lists) ≡ copies n puts =
        let same_many = ap (λ m. copies m puts) many in omega arith in
      ap (λ q. drain T reads qsize q none) filled.same
      ∙ drain-items T reads qsize filled.lists
          (in_time reads qsize filled.lists (length puts) 0 soon filled.bounded)
      ∙ rw (all_copies, filled.as_many, many) refl
