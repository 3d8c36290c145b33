-- ===== src/Debug/Lines.antt =====
-- The addresses of the line table ascend, so that `line_at` answers from the last entry at or
-- before an address.
use droidsaw_dex.Prelude.{
  ℕ, ◌/◌, ◌%◌, ◌≤◌, ◌<◌, ◌≡◌, refl, sym, ap, ◌∙◌, subst, arith, inl, inr, Option, none, some,
  Option-cases, List, [], ◌∷◌, ◌++◌, All, Bool, if◌then◌else◌, leb, Bool-cases, le→leb, leb→le,
  gt→leb,
}
use droidsaw_dex.Prelude.Int.{ℤ, pos, negsuc, ◌+ℤ◌}
use droidsaw_dex.Prelude.Errors.{ok, IfOk, IfOk-then, IfOk-eq}
use droidsaw_dex.Prelude.Sets.{map_get}
use droidsaw_dex.Leb.{next_uleb128, next_sleb128}
use droidsaw_dex.Debug.Machine.{
  FileView, Machine, push_entry, push_line, advance_pc, advance_line, checked_add_u32, end_active,
  insert_active, start_local, end_local, restart_local, set_file, special_op, DebugOp, end_sequence,
  op_advance_pc, op_advance_line, op_end_local, op_restart_local, marker, op_set_file, unknown,
  op_start_local, special, run_op, narrow_register, checked_add_i32, last_local,
}
use droidsaw_dex.Debug.Rounds.{left, Ends, parse_debug_info-inv}
use droidsaw_dex.Debug.Parse.{DebugInfo, parse_debug_info, last_entry, line_at}

-- The addresses of the entries ascend from `lo` to `hi`.
abbrev pub Ascends : ℕ → ℕ → List (ℕ × ℕ) → Type 0
Ascends lo hi [] = lo ≤ hi
Ascends lo hi (e ∷ es) = (lo ≤ e.0) × Ascends e.0 hi es

Ascends-weaken :
    (lo hi hi' : ℕ) (es : List (ℕ × ℕ)) → hi ≤ hi' → Ascends lo hi es → Ascends lo hi' es
Ascends-weaken lo hi hi' [] le h = omega arith
Ascends-weaken lo hi hi' (e ∷ es) le h = (h.0, Ascends-weaken e.0 hi hi' es le h.1)

Ascends-snoc :
    (lo hi n : ℕ) (es : List (ℕ × ℕ)) → Ascends lo hi es → Ascends lo hi (es ++ (hi, n) ∷ [])
Ascends-snoc lo hi n [] h = (h, omega arith)
Ascends-snoc lo hi n (e ∷ es) h = (h.0, Ascends-snoc e.0 hi n es h.1)

-- The table starts with the entry for address 0 and goes up to the current address.
pub record IsOrdered (line_start : ℕ) (m : Machine) : Type 0 where
  pub more : List (ℕ × ℕ)
  pub starts : m.line_table ≡ (0, line_start) ∷ more
  pub ascends : Ascends 0 m.address more

-- A round that keeps the table and does not move back.
same_table :
    (line_start : ℕ) (m m' : Machine)
    → m'.line_table ≡ m.line_table
    → m.address ≤ m'.address
    → IsOrdered line_start m
    → IsOrdered line_start m'
same_table line_start m m' e le h = record {
  more = h.more;
  starts = e ∙ h.starts;
  ascends = Ascends-weaken 0 m.address m'.address h.more le h.ascends;
}

push_entry-IsOrdered :
    (line_start : ℕ) (z : ℤ) (m : Machine)
    → IsOrdered line_start m
    → IsOrdered line_start (push_entry z m)
unfolding push_entry
push_entry-IsOrdered line_start (pos n) m h = record {
  more = h.more ++ (m.address, n) ∷ [];
  starts = ap (λ es. es ++ (m.address, n) ∷ []) h.starts;
  ascends = Ascends-snoc 0 m.address n h.more h.ascends;
}
push_entry-IsOrdered line_start (negsuc n) m h = h

-- To move on and to write the line down keeps the order.
moved :
    (line_start at address : ℕ) (line : ℤ) (m : Machine)
    → m.address ≤ address
    → IsOrdered line_start m
    → IsOrdered line_start (push_line (record m { at = at; address = address; line = line }))
unfolding push_line
moved line_start at address line m le h =
    push_entry-IsOrdered line_start line (record m { at = at; address = address; line = line })
      (same_table line_start m (record m { at = at; address = address; line = line }) refl le h)

checked_add_u32-le : (a b n : ℕ) → checked_add_u32 a b ≡ some n → a ≤ n
unfolding checked_add_u32
checked_add_u32-le a b n e = ground arith

module _ (line_start : ℕ) (file : FileView) (bytes : List ℕ) (m : Machine)
    (h : IsOrdered line_start m) where
  advance_pc-IsOrdered : IfOk (λ f. IsOrdered line_start (left f)) (advance_pc file bytes m)
  unfolding advance_pc
  advance_pc-IsOrdered = IfOk-then _ (next_uleb128 file.leb128 bytes m.at) _ λ r.
      elim (Option-cases (checked_add_u32 m.address r.0)) [
        | inl gone ↦ rw gone (same_table line_start m _ refl (omega arith) h)
        | inr (a, e) ↦
            rw e (same_table line_start m _ refl (checked_add_u32-le m.address r.0 a e) h)
      ]

  advance_line-IsOrdered : IfOk (λ f. IsOrdered line_start (left f)) (advance_line file bytes m)
  unfolding advance_line
  advance_line-IsOrdered = IfOk-then _ (next_sleb128 file.leb128 bytes m.at) _ λ r.
      elim (Option-cases (checked_add_i32 m.line r.0)) [
        | inl gone ↦ rw gone (same_table line_start m _ refl (omega arith) h)
        | inr (l, e) ↦ rw e (moved line_start r.1 m.address l m (omega arith) h)
      ]

  special_op-IsOrdered : (adjusted : ℕ) → IsOrdered line_start (left (special_op adjusted m))
  unfolding special_op
  special_op-IsOrdered adjusted =
      elim (Option-cases (checked_add_i32 m.line (negsuc 3 +ℤ pos (adjusted % 15)))) [
        | inl gone ↦ rw (gone, left, special_op) h
        | inr (l, e) ↦ elim (Option-cases (checked_add_u32 m.address (adjusted / 15))) [
          | inl gone ↦
              rw (e, gone, left, special_op) (same_table line_start m _ refl (omega arith) h)
          | inr (a, f) ↦
              rw (e, f, left, special_op)
                (moved line_start m.at a l m (checked_add_u32-le _ _ a f) h)
        ]
      ]

end_active-same :
    (register : ℕ) (m : Machine)
    → ((end_active register m).line_table ≡ m.line_table)
      × ((end_active register m).address ≡ m.address)
unfolding end_active
end_active-same register m = elim (Option-cases (map_get register m.active)) [
  | inl gone ↦ rw (gone, end_active) (refl, refl)
  | inr (l, e) ↦ rw (e, end_active) (refl, refl)
]

module _ (line_start : ℕ) (file : FileView) (bytes : List ℕ) (registers_size : ℕ) (m : Machine)
    (h : IsOrdered line_start m) where
  local_op-IsOrdered :
      (extended : Bool)
      → IfOk (λ f. IsOrdered line_start (left f)) (start_local extended file bytes registers_size m)
  unfolding start_local insert_active
  local_op-IsOrdered extended = IfOk-then _ (next_uleb128 file.leb128 bytes m.at) _ λ a.
      IfOk-then _ (narrow_register a.0 registers_size) _ λ register.
        IfOk-then _ (next_uleb128 file.leb128 bytes a.1) _ λ b.
          IfOk-then _ (next_uleb128 file.leb128 bytes b.1) _ λ c.
            IfOk-then _ (if extended then next_uleb128 file.leb128 bytes c.1 else ok (0, c.1)) _
              λ d.
                let same = end_active-same register (record m { at = d.1 }) in
                same_table line_start m _ same.0 (omega (arith, same.1)) h

  end_local-IsOrdered :
      IfOk (λ f. IsOrdered line_start (left f)) (end_local file bytes registers_size m)
  unfolding end_local
  end_local-IsOrdered = IfOk-then _ (next_uleb128 file.leb128 bytes m.at) _ λ a.
      IfOk-then _ (narrow_register a.0 registers_size) _ λ register.
        let same = end_active-same register (record m { at = a.1 }) in
        same_table line_start m _ same.0 (omega (arith, same.1)) h

  restart_local-IsOrdered :
      IfOk (λ f. IsOrdered line_start (left f)) (restart_local file bytes registers_size m)
  unfolding restart_local insert_active
  restart_local-IsOrdered = IfOk-then _ (next_uleb128 file.leb128 bytes m.at) _ λ a.
      IfOk-then _ (narrow_register a.0 registers_size) _ λ register.
        elim (Option-cases (last_local register m.locals)) [
          | inl gone ↦ rw gone (same_table line_start m _ refl (omega arith) h)
          | inr (l, e) ↦ rw e (same_table line_start m _ refl (omega arith) h)
        ]

  run_op-IsOrdered :
      (op : DebugOp)
      → IfOk (λ f. IsOrdered line_start (left f)) (run_op op file bytes registers_size m)
  unfolding run_op set_file
  run_op-IsOrdered end_sequence = h
  run_op-IsOrdered op_advance_pc = advance_pc-IsOrdered line_start file bytes m h
  run_op-IsOrdered op_advance_line = advance_line-IsOrdered line_start file bytes m h
  run_op-IsOrdered (op_start_local extended) = local_op-IsOrdered extended
  run_op-IsOrdered op_end_local = end_local-IsOrdered
  run_op-IsOrdered op_restart_local = restart_local-IsOrdered
  run_op-IsOrdered marker = h
  run_op-IsOrdered op_set_file =
      IfOk-then _ (next_uleb128 file.leb128 bytes m.at) _
        λ a. same_table line_start m _ refl (omega arith) h
  run_op-IsOrdered (special adjusted) = special_op-IsOrdered line_start file bytes m h adjusted
  run_op-IsOrdered unknown = h

-- Past `pc` nothing is found.
none-last_entry :
    (pc lo hi : ℕ) (es : List (ℕ × ℕ))
    → pc < lo
    → Ascends lo hi es
    → (last_entry es pc ≡ none) × All (λ (a : ℕ × ℕ). pc < a.0) es
unfolding last_entry
none-last_entry pc lo hi [] lt up = (refl, tt)
none-last_entry pc lo hi (e ∷ es) lt up =
    let rest = none-last_entry pc e.0 hi es (omega arith) up.1 in
    (rw (rest.0, gt→leb e.0 pc (omega arith)), (omega arith, rest.1))

-- The table cut at the entry that answers for `pc`.
abbrev pub CutAt : ℕ → List (ℕ × ℕ) → Option ℕ → Type 0
CutAt pc es found =
    (entry : ℕ × ℕ) × (before : List (ℕ × ℕ)) × (after : List (ℕ × ℕ)) × (es
      ≡ before ++ entry ∷ after)
    × (found ≡ some entry.1)
    × (entry.0 ≤ pc)
    × All (λ (b : ℕ × ℕ). b.0 ≤ entry.0) before
    × All (λ (a : ℕ × ℕ). pc < a.0) after

last_entry-CutAt :
    (pc hi : ℕ) (es : List (ℕ × ℕ)) (e : ℕ × ℕ)
    → e.0 ≤ pc
    → Ascends e.0 hi es
    → (cut : CutAt pc (e ∷ es) (last_entry (e ∷ es) pc)) × (e.0 ≤ cut.0.0)
unfolding last_entry
last_entry-CutAt pc hi [] e le up =
    ((e, [], [], refl, rw (le→leb e.0 pc le), le, tt, tt), omega arith)
last_entry-CutAt pc hi (e' ∷ es) e le up = elim (Bool-cases (leb e'.0 pc)) [
  | inl near ↦
      let below = leb→le e'.0 pc near in
      let (cut, least) = last_entry-CutAt pc hi es e' below up.1 in
      (
        (
          cut.0,
          e ∷ cut.1,
          cut.2,
          ap (λ xs. e ∷ xs) cut.3,
          rw (cut.4, last_entry),
          cut.5,
          (omega (arith, least), cut.6),
          cut.7,
        ),
        omega (arith, least),
      )
  | inr far ↦
      let rest = none-last_entry pc e'.0 hi es (ground arith) up.1 in
      (
        (
          e,
          [],
          e' ∷ es,
          refl,
          rw (rest.0, far, le→leb e.0 pc le, last_entry),
          le,
          tt,
          (ground arith, rest.1),
        ),
        omega arith,
      )
]

-- In a debug info that was parsed, `line_at` answers for every address, by an entry of the line
-- table: it stands at or before the address, none before it in the table stands later than it, and
-- all behind it in the table stand after the address.
pub parse_debug_info-line_at :
    (file : FileView) (bytes : List ℕ) (offset registers_size : ℕ) (d : DebugInfo) (pc : ℕ)
    → parse_debug_info file bytes offset registers_size ≡ ok d
    → CutAt pc d.line_table (line_at d pc)
unfolding line_at
parse_debug_info-line_at file bytes offset registers_size d pc e =
    let ends =
      IfOk-eq (Ends IsOrdered) (parse_debug_info file bytes offset registers_size)
        (parse_debug_info-inv IsOrdered file bytes offset registers_size
          (λ n m at h. same_table n m (record m { at = at }) refl (omega arith) h)
          (λ n op m h. run_op-IsOrdered n file bytes registers_size m h op)
          (λ n at. record { more = []; starts = refl; ascends = omega arith }))
        e in
    let ordered = ends.1 in
    subst (λ es. CutAt pc es (last_entry es pc)) (sym (ends.3 ∙ ordered.starts))
      (last_entry-CutAt pc ends.0.address ordered.more (0, d.line_start) (omega arith)
        ordered.ascends).0
