-- ===== src/Converter/Loops.antt =====
-- Which loops the calls of a converter start.
use ormus.Prelude.{
  ℕ, ◌≤◌, ◌≡◌, refl, sym, ap, ◌∙◌, arith, false, ◌||◌, if◌then◌else◌, Option, none, some, Bool,
  true, List, [], ◌∷◌, ◌==◌, ◌&&◌, Bool-cases, inl, inr,
}
use ormus.Prelude.TakeAt.{All, count}
use ormus.Converter.{
  Kind, output_processed_event, output_task, input_task, input_delivery_task, same_kind, Loop,
  Converter, new_converter, put, convert_new, convert, Call, call, run,
}

abbrev pub is_loop : Kind → ℕ → Loop → Bool
is_loop k o l = same_kind l.kind k && (l.original == o)

abbrev pub is_converted : ℕ → Loop → Bool
is_converted n l = l.converted == n

abbrev pub entries : Option ℕ → ℕ
entries none = 0
entries (some n) = 1

same_kind-lem : (k j : Kind) → same_kind k j ≡ true → k ≡ j
same_kind-lem output_processed_event output_processed_event h = refl
same_kind-lem output_task output_task h = refl
same_kind-lem input_task input_task h = refl
same_kind-lem input_delivery_task input_delivery_task h = refl
same_kind-lem k j h = cc

-- Where the test of `put` holds it is the same entry.
same_entry :
    (k j : Kind) (o p : ℕ) (table : Kind → ℕ → Option ℕ)
    → (same_kind k j && (o == p)) ≡ true
    → table k o ≡ table j p
same_entry k j o p table h = elim (Bool-cases (same_kind k j)) [
  | inl s ↦
      let same : k ≡ j = same_kind-lem k j s in
      let equal : o ≡ p = ground (arith, h, s) in
      ap (λ (i : Kind). table i o) same ∙ ap (table j) equal
  | inr s ↦ ground (arith, h, s)
]

pub put-other :
    (k j : Kind) (o p n m : ℕ) (table : Kind → ℕ → Option ℕ)
    → table k o ≡ none
    → table j p ≡ some m
    → put k o n table j p ≡ some m
put-other k j o p n m table h e = elim (Bool-cases (same_kind k j && (o == p))) [
  | inl s ↦ let same = same_entry k j o p table s in cc
  | inr s ↦ rw s e
]

pub put-own : (k : Kind) (o n : ℕ) (table : Kind → ℕ → Option ℕ) → put k o n table k o ≡ some n
put-own output_processed_event o n table = ground arith
put-own output_task o n table = ground arith
put-own input_task o n table = ground arith
put-own input_delivery_task o n table = ground arith

-- The entry of a loop is its channel.
abbrev pub Made : (Kind → ℕ → Option ℕ) → Loop → Type 0
Made table l = table l.kind l.original ≡ some l.converted

put-Made :
    (k : Kind) (o n : ℕ) (table : Kind → ℕ → Option ℕ) (loops : List Loop)
    → table k o ≡ none
    → All (Made table) loops
    → All (Made (put k o n table)) loops
put-Made k o n table [] h v = tt
put-Made k o n table (l ∷ loops) h (e, v) =
    (put-other k l.kind o l.original n l.converted table h e, put-Made k o n table loops h v)

-- The table and the loops of a converter agree: each entry has one loop, and no other channel has
-- one; the loop's channel is its entry; and no two loops have one channel.
pub record Agrees (c : Converter) : Type 0 where
  pub once : (k : Kind) (o : ℕ) → count (is_loop k o) c.loops ≡ entries (c.table k o)
  pub made : All (Made c.table) c.loops
  pub distinct : (n : ℕ) → count (is_converted n) c.loops ≤ 1
  pub fresh : (n : ℕ) → c.next ≤ n → count (is_converted n) c.loops ≡ 0

convert_new-Agrees :
    (e : Option ℕ) (k : Kind) (o size : ℕ) (c : Converter)
    → c.table k o ≡ e
    → Agrees c
    → Agrees (convert_new e k o size c).1
convert_new-Agrees (some n) k o size c h v = v
convert_new-Agrees none k o size c h v = record {
  once = λ j p.
      let old = v.once j p in
      elim (Bool-cases (same_kind k j && (o == p))) [
        | inl s ↦ let same = same_entry k j o p c.table s in rw s (ground (arith, old, same, h))
        | inr s ↦ rw s old
      ];
  made = (put-own k o c.next c.table, put-Made k o c.next c.table c.loops h v.made);
  distinct = λ n. let old = v.distinct n in let unused = v.fresh n in ground (arith, old, unused);
  fresh = λ n above. let old = v.fresh n in ground (arith, old, above);
}

call-Agrees : (x : Call) (c : Converter) → Agrees c → Agrees (call x c).1
unfolding convert
call-Agrees (output_processed_event, o, size) c v =
    convert_new-Agrees (c.table output_processed_event o) output_processed_event o size c refl v
call-Agrees (output_task, o, size) c v =
    convert_new-Agrees (c.table output_task o) output_task o size c refl v
call-Agrees (input_task, o, size) c v =
    convert_new-Agrees (c.table input_task o) input_task o size c refl v
call-Agrees (input_delivery_task, o, size) c v =
    convert_new-Agrees (c.table input_delivery_task o) input_delivery_task o size c refl v

run-Agrees : (calls : List Call) (c : Converter) → Agrees c → Agrees (run calls c)
unfolding run
run-Agrees [] c v = v
run-Agrees (x ∷ calls) c v = run-Agrees calls (call x c).1 (unfold convert in call-Agrees x c v)

-- Whether one of the calls is for the kind and the channel.
abbrev pub asked : Kind → ℕ → List Call → Bool
asked k o [] = false
asked k o ((j, p, size) ∷ calls) = (same_kind j k && (p == o)) || asked k o calls

abbrev pub is_some : Option ℕ → Bool
is_some none = false
is_some (some n) = true

convert_new-is_some :
    (e : Option ℕ) (k j : Kind) (o p size : ℕ) (c : Converter)
    → c.table k o ≡ e
    → is_some ((convert_new e k o size c).1.table j p)
      ≡ (same_kind k j && (o == p)) || is_some (c.table j p)
convert_new-is_some (some n) k j o p size c h = elim (Bool-cases (same_kind k j && (o == p))) [
  | inl s ↦ let same = same_entry k j o p c.table s in rw (s, sym same, h) refl
  | inr s ↦ rw s refl
]
convert_new-is_some none k j o p size c h = elim (Bool-cases (same_kind k j && (o == p))) [
  | inl s ↦ rw s refl
  | inr s ↦ rw s refl
]

call-is_some :
    (k j : Kind) (o p size : ℕ) (c : Converter)
    → is_some ((call (k, o, size) c).1.table j p)
      ≡ (same_kind k j && (o == p)) || is_some (c.table j p)
unfolding convert
call-is_some output_processed_event j o p size c =
    convert_new-is_some (c.table output_processed_event o) output_processed_event j o p size c refl
call-is_some output_task j o p size c =
    convert_new-is_some (c.table output_task o) output_task j o p size c refl
call-is_some input_task j o p size c =
    convert_new-is_some (c.table input_task o) input_task j o p size c refl
call-is_some input_delivery_task j o p size c =
    convert_new-is_some (c.table input_delivery_task o) input_delivery_task j o p size c refl

run-is_some :
    (calls : List Call) (k : Kind) (o : ℕ) (c : Converter)
    → is_some ((run calls c).table k o) ≡ asked k o calls || is_some (c.table k o)
unfolding run
run-is_some [] k o c = refl
run-is_some ((j, p, size) ∷ calls) k o c =
    run-is_some calls k o (call (j, p, size) c).1 ∙ ground (arith, call-is_some j k p o size c)

entries-is_some : (e : Option ℕ) → entries e ≡ (if is_some e then 1 else 0)
entries-is_some none = refl
entries-is_some (some n) = refl

-- Whatever calls a converter gets, for each kind of conversion a channel has exactly one loop if one
-- of the calls was for it, and none otherwise; where there is one, its channel is the entry in the
-- table, and no other loop has this channel.
pub run-new_converter-Agrees :
    (calls : List Call) (next : ℕ)
    → ((k : Kind) (o : ℕ)
        → count (is_loop k o) (run calls (new_converter next)).loops
          ≡ (if asked k o calls then 1 else 0))
      × Agrees (run calls (new_converter next))
run-new_converter-Agrees calls next =
    let agrees = run-Agrees calls (new_converter next) (record {
      once = λ k o. refl;
      made = tt;
      distinct = λ n. omega arith;
      fresh = λ n above. refl;
    }) in
    (
      λ k o.
          let is = run-is_some calls k o (new_converter next) in
          agrees.once k o ∙ entries-is_some _ ∙ ground (arith, is),
      agrees,
    )
