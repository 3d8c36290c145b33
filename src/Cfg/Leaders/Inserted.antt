-- ===== src/Cfg/Leaders/Inserted.antt =====
-- What each step of `find_leaders` adds to the leaders.
use droidsaw_dex.Prelude.{
  ℕ, ◌≡◌, refl, sym, ap, ◌∙◌, subst, ◌⊎◌, inl, inr, ◌↔◌, Bool, true, false, ◌||◌, Bool-cases,
  Option, none, some, some-eq, Option-cases, List, [], ◌∷◌, if◌then◌else◌,
}
use droidsaw_dex.Prelude.Sets.{
  set_insert, In, In-set_insert, In-set_insert_self, In-of-set_insert, map_get,
}
use droidsaw_dex.Opcodes.{Opcode}
use droidsaw_dex.Decode.Insn.{Instruction}
use droidsaw_dex.Decode.Item.{
  TypedCatch, packed_switch, sparse_switch, fill_array_data, CatchHandler, CodeItem,
}
use droidsaw_dex.Cfg.Blocks.{
  payload_targets, is_branch, is_terminal, is_switch, next_addr, insert_all, target_leaders,
  add_leaders, insn_leaders, catch_addrs, add_handler, handler_leaders,
}
use droidsaw_dex.Cfg.Boundary.{
  Jumps, Switches, Has, InsnBoundary, jump_target, packed_target, sparse_target, behind,
  HandlerBoundary, typed, catch_all, Jumps-is_branch, Switches-is_switch, ends_block,
  is_switch-Switches, is_branch-Jumps, ends_block-cases,
}

In-insert_all : (z : ℕ) (ts ls : List ℕ) → In z (insert_all ts ls) ↔ (In z ts ⊎ In z ls)
unfolding insert_all
In-insert_all z [] ls =
    ((λ h. inr h), λ h. elim h [ inl none_there ↦ absurd none_there | inr old ↦ old ])
In-insert_all z (t ∷ ts) ls =
    let rest = In-insert_all z ts (set_insert t ls) in
    (
      (λ h. elim (rest.0 h) [
        | inl later ↦ inl (inr later)
        | inr now ↦ elim (In-of-set_insert z t ls now) [
          | inl new ↦ inl (inl new)
          | inr old ↦ inr old
        ]
      ]),
      (λ h. elim h [
        | inl target ↦ elim target [
          | inl new ↦ rest.1 (inr (rw new (In-set_insert_self t ls)))
          | inr later ↦ rest.1 (inl later)
        ]
        | inr old ↦ rest.1 (inr (In-set_insert z t ls old))
      ]),
    )

-- The addresses that an instruction inserts by its target are its targets.
InsnBoundary-target_leaders :
    (code : CodeItem) (insn : Instruction) (addr : ℕ) (op : Opcode) (target : Option ℕ)
    → op ≡ insn.op
    → target ≡ insn.target
    → In addr (target_leaders code op target)
    → InsnBoundary code insn addr
unfolding target_leaders payload_targets
InsnBoundary-target_leaders code insn addr op none same_op same h = absurd h
InsnBoundary-target_leaders code insn addr op (some t) same_op same h =
    elim (Bool-cases (is_switch op)) [
      | inl switches ↦
          let by_switch = subst Switches same_op (is_switch-Switches op switches) in
          elim (Option-cases (map_get t code.payloads)) [
            | inl gone ↦ absurd (rw (switches, gone, target_leaders, payload_targets) at h)
            | inr (packed_switch key ts, found) ↦
                packed_target t key ts by_switch (sym same) found
                  (rw (switches, found, target_leaders, payload_targets) at h)
            | inr (sparse_switch keys ts, found) ↦
                sparse_target t keys ts by_switch (sym same) found
                  (rw (switches, found, target_leaders, payload_targets) at h)
            | inr (fill_array_data width elements, found) ↦
                absurd (rw (switches, found, target_leaders, payload_targets) at h)
          ]
      | inr not_switch ↦ elim (Bool-cases (is_branch op)) [
        | inl branches ↦ elim ((rw (not_switch, branches, target_leaders) at h)) [
          | inl e ↦
              jump_target (subst Jumps same_op (is_branch-Jumps op branches not_switch))
                (sym same ∙ ap some (sym e))
          | inr none_there ↦ absurd none_there
        ]
        | inr not_branch ↦ absurd (rw (not_switch, not_branch, target_leaders) at h)
      ]
    ]

-- The address behind an instruction that ends a block.
In-behind :
    (z next : ℕ) (ends : Bool) (ls : List ℕ)
    → In z (if ends then set_insert next ls else ls) ↔ (((ends ≡ true) × (z ≡ next)) ⊎ In z ls)
In-behind z next true ls = (
  (λ h. elim (In-of-set_insert z next ls h) [ inl new ↦ inl (refl, new) | inr old ↦ inr old ]),
  (λ h. elim h [
    | inl new ↦ rw new.1 (In-set_insert_self next ls)
    | inr old ↦ In-set_insert z next ls old
  ]),
)
In-behind z next false ls =
    ((λ h. inr h), (λ h. elim h [ inl new ↦ absurd (cc new.0) | inr old ↦ old ]))

In-add_leaders :
    (code : CodeItem) (insn : Instruction) (addr : ℕ) (ls : List ℕ)
    → In addr (add_leaders code insn ls) ↔ (InsnBoundary code insn addr ⊎ In addr ls)
unfolding add_leaders next_addr target_leaders payload_targets
In-add_leaders code insn addr ls =
    let targets = target_leaders code insn.op insn.target in
    let ends = is_branch insn.op || is_terminal insn.op in
    let all = In-insert_all addr targets (if ends then set_insert (next_addr insn) ls else ls) in
    let after = In-behind addr (next_addr insn) ends ls in
    (
      (λ h. elim (all.0 h) [
        | inl target ↦
            inl (InsnBoundary-target_leaders code insn addr insn.op insn.target refl refl target)
        | inr now ↦ elim (after.0 now) [
          | inl new ↦ inl (behind (ends_block-cases insn.op new.0) new.1)
          | inr old ↦ inr old
        ]
      ]),
      (λ h. elim h [
        | inr old ↦ all.1 (inr (after.1 (inr old)))
        | inl (behind ends_here e) ↦ all.1 (inr (after.1 (inl (ends_block insn.op ends_here, e))))
        | inl (jump_target j t) ↦
            let kind = Jumps-is_branch insn.op j in
            all.1 (inl (rw (t, kind.0, kind.1, target_leaders) (inl refl)))
        | inl (packed_target table key ts s t found i) ↦
            all.1
              (inl (rw (t, Switches-is_switch insn.op s, found, target_leaders, payload_targets) i))
        | inl (sparse_target table keys ts s t found i) ↦
            all.1
              (inl (rw (t, Switches-is_switch insn.op s, found, target_leaders, payload_targets) i))
      ]),
    )

pub In-insn_leaders :
    (code : CodeItem) (insns : List Instruction) (addr : ℕ) (ls : List ℕ)
    → In addr (insn_leaders code insns ls)
      ↔ (((insn : Instruction) × Has insn insns × InsnBoundary code insn addr) ⊎ In addr ls)
unfolding insn_leaders
In-insn_leaders code [] addr ls =
    ((λ h. inr h), λ h. elim h [ inl found ↦ absurd found.1 | inr old ↦ old ])
In-insn_leaders code (i ∷ is) addr ls =
    let rest = In-insn_leaders code is addr (add_leaders code i ls) in
    let now = In-add_leaders code i addr ls in
    (
      (λ h. elim (rest.0 h) [
        | inl (insn, has, b) ↦ inl (insn, inr has, b)
        | inr there ↦ elim (now.0 there) [ inl b ↦ inl (i, inl refl, b) | inr old ↦ inr old ]
      ]),
      (λ h. elim h [
        | inl (insn, inl same, b) ↦
            rest.1 (inr (now.1 (inl (subst (λ x. InsnBoundary code x addr) same b))))
        | inl (insn, inr has, b) ↦ rest.1 (inl (insn, has, b))
        | inr old ↦ rest.1 (inr (now.1 (inr old)))
      ]),
    )

In-catch_addrs :
    (addr : ℕ) (cs : List TypedCatch)
    → In addr (catch_addrs cs) ↔ ((c : TypedCatch) × Has c cs × (addr ≡ c.handler_addr))
unfolding catch_addrs
In-catch_addrs addr [] = ((λ h. absurd h), λ h. absurd h.1)
In-catch_addrs addr (c ∷ cs) =
    let rest = In-catch_addrs addr cs in
    (
      (λ h. elim h [
        | inl e ↦ (c, inl refl, e)
        | inr later ↦ let (d, has, e) = rest.0 later in (d, inr has, e)
      ]),
      (λ h. elim h.1 [
        | inl same ↦ inl (h.2 ∙ ap (λ (x : TypedCatch). x.handler_addr) same)
        | inr has ↦ inr (rest.1 (h.0, has, h.2))
      ]),
    )

In-catch_all :
    (z : ℕ) (addr : Option ℕ) (ls : List ℕ)
    → In z (elim addr [ none ↦ ls | some a ↦ set_insert a ls ]) ↔ ((addr ≡ some z) ⊎ In z ls)
In-catch_all z none ls = ((λ h. inr h), λ h. elim h [ inl e ↦ absurd (cc e) | inr old ↦ old ])
In-catch_all z (some a) ls = (
  (λ h. elim (In-of-set_insert z a ls h) [ inl new ↦ inl (ap some (sym new)) | inr old ↦ inr old ]),
  (λ h. elim h [
    | inl e ↦ rw (sym (some-eq a z e)) (In-set_insert_self a ls)
    | inr old ↦ In-set_insert z a ls old
  ]),
)

In-add_handler :
    (handler : CatchHandler) (addr : ℕ) (ls : List ℕ)
    → In addr (add_handler handler ls) ↔ (HandlerBoundary handler addr ⊎ In addr ls)
unfolding add_handler
In-add_handler handler addr ls =
    let last =
      In-catch_all addr handler.catch_all_addr (insert_all (catch_addrs handler.catches) ls) in
    let all = In-insert_all addr (catch_addrs handler.catches) ls in
    let caught = In-catch_addrs addr handler.catches in
    (
      (λ h. elim (last.0 h) [
        | inl e ↦ inl (catch_all e)
        | inr now ↦ elim (all.0 now) [
          | inl there ↦ let (c, has, e) = caught.0 there in inl (typed c has e)
          | inr old ↦ inr old
        ]
      ]),
      (λ h. elim h [
        | inl (catch_all e) ↦ last.1 (inl e)
        | inl (typed c has e) ↦ last.1 (inr (all.1 (inl (caught.1 (c, has, e)))))
        | inr old ↦ last.1 (inr (all.1 (inr old)))
      ]),
    )

pub In-handler_leaders :
    (hs : List CatchHandler) (addr : ℕ) (ls : List ℕ)
    → In addr (handler_leaders hs ls)
      ↔ (((h : CatchHandler) × Has h hs × HandlerBoundary h addr) ⊎ In addr ls)
unfolding handler_leaders
In-handler_leaders [] addr ls =
    ((λ h. inr h), λ h. elim h [ inl found ↦ absurd found.1 | inr old ↦ old ])
In-handler_leaders (x ∷ xs) addr ls =
    let rest = In-handler_leaders xs addr (add_handler x ls) in
    let now = In-add_handler x addr ls in
    (
      (λ h. elim (rest.0 h) [
        | inl (y, has, b) ↦ inl (y, inr has, b)
        | inr there ↦ elim (now.0 there) [ inl b ↦ inl (x, inl refl, b) | inr old ↦ inr old ]
      ]),
      (λ h. elim h [
        | inl (y, inl same, b) ↦
            rest.1 (inr (now.1 (inl (subst (λ (z : CatchHandler). HandlerBoundary z addr) same b))))
        | inl (y, inr has, b) ↦ rest.1 (inl (y, has, b))
        | inr old ↦ rest.1 (inr (now.1 (inr old)))
      ]),
    )
