-- ===== src/Document/Strings/Blocks.antt =====
-- The block of a string array against the list of its strings.
use yikv.Prelude.{
  ℕ, zero, suc, ◌+◌, ◌%◌, ◌^◌, ◌≤◌, ◌<◌, ◌≡◌, refl, sym, ap, ◌∙◌, true, List, [], ◌∷◌, ◌++◌, some,
  arith, ltb, if◌then◌else◌, length, get_elem?, take, drop, length-append, append_assoc,
  take-append, drop-append, length-drop,
}
use yikv.Document.{StringBlock, zeros}
use yikv.Document.Arrays.{write_at}
use yikv.Document.Arrays.Laws.{length-zeros, write_at-append}
use yikv.Document.Strings.{
  grow_cap32, total_bytes, lengths, joined, views, string_at, append_in_place, append_in_copy, fits,
}

pub grow_cap32-bounds : (n : ℕ) → n < 2 ^ 32 → (n ≤ grow_cap32 n) × (grow_cap32 n < 2 ^ 32)
unfolding grow_cap32
grow_cap32-bounds n h = (ground arith, ground arith)

lengths-append : (ps qs : List (List ℕ)) → lengths (ps ++ qs) ≡ lengths ps ++ lengths qs
lengths-append [] qs = refl
lengths-append (p ∷ ps) qs = ap (λ r. length p % 2 ^ 32 ∷ r) (lengths-append ps qs)

joined-append : (ps qs : List (List ℕ)) → joined (ps ++ qs) ≡ joined ps ++ joined qs
joined-append [] qs = refl
joined-append (p ∷ ps) qs =
    ap (λ r. p ++ r) (joined-append ps qs) ∙ sym (append_assoc p (joined ps) (joined qs))

total_bytes-append :
    (ps qs : List (List ℕ)) → total_bytes (ps ++ qs) ≡ total_bytes ps + total_bytes qs
total_bytes-append [] qs = omega arith
total_bytes-append (p ∷ ps) qs = omega (arith, total_bytes-append ps qs)

length-lengths : (ps : List (List ℕ)) → length (lengths ps) ≡ length ps
length-lengths [] = refl
length-lengths (p ∷ ps) = omega (arith, length-lengths ps)

length-joined : (ps : List (List ℕ)) → length (joined ps) ≡ total_bytes ps
length-joined [] = refl
length-joined (p ∷ ps) = omega (arith, length-append p (joined ps), length-joined ps)

-- The strings are read back from their lengths and bytes, whatever is behind these.
pub views-joined :
    (ps : List (List ℕ)) (l r : List ℕ)
    → total_bytes ps < 2 ^ 32
    → views (length ps) (lengths ps ++ l) (joined ps ++ r) ≡ ps
unfolding views
views-joined [] l r h = refl
views-joined (p ∷ ps) l r h =
    let size : length p % 2 ^ 32 ≡ length p = omega arith in
    rw
      (
        size,
        append_assoc p (joined ps) r,
        take-append p (joined ps ++ r),
        drop-append p (joined ps ++ r),
        views-joined ps l r (omega arith),
      )
      refl

pub string_at-joined :
    (i : ℕ) (ps : List (List ℕ)) (p l r : List ℕ)
    → total_bytes ps < 2 ^ 32
    → get_elem? ps i ≡ some p
    → string_at i (lengths ps ++ l) (joined ps ++ r) ≡ p
unfolding string_at
string_at-joined i [] p l r h e = cc
string_at-joined zero (q ∷ ps) p l r h e =
    let size : length q % 2 ^ 32 ≡ length q = omega arith in
    let same : q ≡ p = cc in
    rw (size, append_assoc q (joined ps) r, take-append q (joined ps ++ r)) same
string_at-joined (suc i) (q ∷ ps) p l r h e =
    let size : length q % 2 ^ 32 ≡ length q = omega arith in
    rw (size, append_assoc q (joined ps) r, drop-append q (joined ps ++ r))
      (string_at-joined i ps p l r (omega arith) e)

-- A block holds the strings of the list, with room behind the lengths and the bytes.
pub record BlockHolds (t : StringBlock) (ps : List (List ℕ)) : Type 0 where
  pub slack : List ℕ
  pub slack_bytes : List ℕ
  pub count : t.count ≡ length ps
  pub bytes_used : t.bytes_used ≡ total_bytes ps
  pub lens : t.lens ≡ lengths ps ++ slack
  pub bytes_payload : t.bytes_payload ≡ joined ps ++ slack_bytes
  pub cap_count : t.cap_count ≡ length ps + length slack
  pub cap_bytes : t.cap_bytes ≡ total_bytes ps + length slack_bytes

-- The count and the bytes of a string array are 32-bit numbers.
pub record IsSmall (ps : List (List ℕ)) : Type 0 where
  pub few : length ps < 2 ^ 32
  pub short : total_bytes ps < 2 ^ 32

-- What one write of the lengths and the bytes makes of a block with room.
pub written-BlockHolds :
    (t : StringBlock) (ps qs : List (List ℕ)) (lens payload slack slack_bytes : List ℕ)
    → lens ≡ lengths ps ++ slack
    → payload ≡ joined ps ++ slack_bytes
    → t.count ≡ length (ps ++ qs)
    → t.bytes_used ≡ total_bytes (ps ++ qs)
    → t.lens ≡ write_at (length ps) (lengths qs) lens
    → t.bytes_payload ≡ write_at (total_bytes ps) (joined qs) payload
    → length ps + length slack ≡ t.cap_count
    → total_bytes ps + length slack_bytes ≡ t.cap_bytes
    → length (ps ++ qs) ≤ t.cap_count
    → total_bytes (ps ++ qs) ≤ t.cap_bytes
    → BlockHolds t (ps ++ qs)
written-BlockHolds t ps qs lens payload slack slack_bytes el ep c u wl wp cc cb fc fb = record {
  slack = drop (length (lengths qs)) slack;
  slack_bytes = drop (length (joined qs)) slack_bytes;
  count = c;
  bytes_used = u;
  lens =
      wl
      ∙ (rw (el, sym (length-lengths ps), lengths-append ps qs)
          (write_at-append (lengths ps) (lengths qs) slack
            ∙ sym (append_assoc (lengths ps) (lengths qs) (drop (length (lengths qs)) slack))));
  bytes_payload =
      wp
      ∙ (rw (ep, sym (length-joined ps), joined-append ps qs)
          (write_at-append (joined ps) (joined qs) slack_bytes
            ∙ sym (append_assoc (joined ps) (joined qs) (drop (length (joined qs)) slack_bytes))));
  cap_count =
      omega
        (arith, length-append ps qs, length-drop (length (lengths qs)) slack, length-lengths qs);
  cap_bytes = omega (
    arith,
    total_bytes-append ps qs,
    length-drop (length (joined qs)) slack_bytes,
    length-joined qs,
  );
}

pub append_in_place-BlockHolds :
    (t : StringBlock) (ps qs : List (List ℕ))
    → BlockHolds t ps
    → IsSmall (ps ++ qs)
    → fits qs t ≡ true
    → BlockHolds (append_in_place qs t) (ps ++ qs)
unfolding append_in_place
append_in_place-BlockHolds t ps qs h m f =
    let count = length-append ps qs in
    let bytes = total_bytes-append ps qs in
    written-BlockHolds _ ps qs t.lens t.bytes_payload h.slack h.slack_bytes h.lens h.bytes_payload
      (omega (arith, m.few, h.count, count)) (omega (arith, m.short, h.bytes_used, bytes))
      (ap (λ n. write_at n (lengths qs) t.lens) h.count)
      (ap (λ n. write_at n (joined qs) t.bytes_payload) h.bytes_used) (sym h.cap_count)
      (sym h.cap_bytes) (ground (arith, f, count, h.count)) (ground (arith, f, bytes, h.bytes_used))

pub append_in_copy-BlockHolds :
    (t : StringBlock) (ps qs : List (List ℕ))
    → BlockHolds t ps
    → IsSmall (ps ++ qs)
    → BlockHolds (append_in_copy qs t) (ps ++ qs)
unfolding append_in_copy
append_in_copy-BlockHolds t ps qs h m =
    let count = length-append ps qs in
    let bytes = total_bytes-append ps qs in
    let c = append_in_copy qs t in
    let need : (t.count + length qs) % 2 ^ 32 ≡ length (ps ++ qs) =
      omega (arith, m.few, h.count, count) in
    let need_bytes : (t.bytes_used + total_bytes qs) % 2 ^ 32 ≡ total_bytes (ps ++ qs) =
      omega (arith, m.short, h.bytes_used, bytes) in
    let cap = larger t.cap_count ((t.count + length qs) % 2 ^ 32) (omega arith) in
    let cap_bytes = larger t.cap_bytes ((t.bytes_used + total_bytes qs) % 2 ^ 32) (omega arith) in
    let lens =
      copied t.count t.lens (lengths ps) h.slack c.cap_count (h.count ∙ sym (length-lengths ps))
        h.lens in
    let payload =
      copied t.bytes_used t.bytes_payload (joined ps) h.slack_bytes c.cap_bytes
        (h.bytes_used ∙ sym (length-joined ps)) h.bytes_payload in
    written-BlockHolds c ps qs (write_at 0 (take t.count t.lens) (zeros c.cap_count))
      (write_at 0 (take t.bytes_used t.bytes_payload) (zeros c.cap_bytes))
      (drop (length (lengths ps)) (zeros c.cap_count))
      (drop (length (joined ps)) (zeros c.cap_bytes)) lens payload need need_bytes
      (ap (λ n. write_at n (lengths qs) (write_at 0 (take t.count t.lens) (zeros c.cap_count)))
        h.count)
      (ap
        (λ n.
          write_at n (joined qs)
            (write_at 0 (take t.bytes_used t.bytes_payload) (zeros c.cap_bytes)))
        h.bytes_used)
      (omega (
        arith,
        count,
        length-lengths ps,
        length-drop (length (lengths ps)) (zeros c.cap_count),
        length-zeros c.cap_count,
      ))
      (omega (
        arith,
        bytes,
        length-joined ps,
        length-drop (length (joined ps)) (zeros c.cap_bytes),
        length-zeros c.cap_bytes,
      ))
      (omega (arith, need)) (omega (arith, need_bytes))
  where
    copied :
        (n : ℕ) (old xs slack : List ℕ) (cap : ℕ)
        → n ≡ length xs
        → old ≡ xs ++ slack
        → write_at 0 (take n old) (zeros cap) ≡ xs ++ drop (length xs) (zeros cap)
    copied n old xs slack cap l e =
        rw (e, l, take-append xs slack) (write_at-append [] xs (zeros cap))

    larger : (old need : ℕ) → need < 2 ^ 32 → need ≤ (if ltb old need then grow_cap32 need else old)
    larger old need l = ground (arith, grow_cap32-bounds need l)
