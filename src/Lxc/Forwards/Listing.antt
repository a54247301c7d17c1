-- ===== src/Lxc/Forwards/Listing.antt =====
-- A chain as `nft list chain` prints it, and what is read back from it.
use lxc2docker.Prelude.{
  ℕ, ◌≡◌, refl, ap, ◌∙◌, Bool, true, false, ◌&&◌, List, [], ◌∷◌, ◌++◌, none, some, arith,
  if◌then◌else◌, inl, inr, Bool-cases, append_assoc, append-nil,
}
use lxc2docker.Strings.{
  Str, codes, eq_str, eq_str_iff, contains_byte, contains_byte-append, split_byte,
  split_byte-append, is_space, fields, itoa, spaceless, is_word, spaceless-contains_byte,
  fields-nil, fields-space, fields-word, fields-last, is_word-itoa, spaceless-itoa,
}
use lxc2docker.Dict.{Dict, get, set, has, get-set, has-get}
use lxc2docker.Lxc.Forwards.Chains.{
  Chain, holds, host_port_key, is_dnat, rule_of, add_line, add_lines, parse_dnat_chain,
}

-- A published port of a chain.
pub record Rule : Type 0 where
  pub udp : Bool
  pub port : ℕ
  pub target : Str

-- A line is a rule, or anything else: the table's and the chain's frame, other rules.
pub data Line : Type 0 where
  rule : Rule → Line
  other : Str → Line

unfoldable pub proto_of : Rule → Str
proto_of r = if r.udp then codes "udp" else codes "tcp"

unfoldable pub rule_key : Rule → Str
unfolding proto_of
rule_key r = host_port_key (proto_of r) (itoa r.port)

-- The rule as `nft` prints it, indented by two tabulators.
unfoldable pub rule_text : Rule → Str
unfolding proto_of
rule_text r =
    9
    ∷ 9
    ∷ (proto_of r
        ++ b' '
          ∷ (codes "dport"
              ++ b' '
                ∷ (itoa r.port ++ b' ' ∷ (codes "dnat" ++ b' ' ∷ (codes "to" ++ b' ' ∷ r.target)))))

unfoldable pub line_text : Line → Str
line_text (rule r) = rule_text r
line_text (other s) = s

unfoldable pub chain_text : List Line → Str
chain_text [] = []
chain_text (l ∷ ls) = line_text l ++ 10 ∷ chain_text ls

-- A target is a word, and no other line reads as a rule.
unfoldable pub Readable : Line → Type 0
Readable (rule r) = is_word r.target ≡ true
Readable (other s) = (contains_byte 10 s ≡ false) × (rule_of (fields s) ≡ none)

unfoldable pub AllReadable : List Line → Type 0
AllReadable [] = Unit
AllReadable (l ∷ ls) = Readable l × AllReadable ls

proto_of-is_word : (r : Rule) → is_word (proto_of r) ≡ true
unfolding proto_of is_word
proto_of-is_word r = elim (Bool-cases r.udp) [
  | inl e ↦ rw e (unfold spaceless is_space in refl)
  | inr e ↦ rw e (unfold spaceless is_space in refl)
]

fields-rule_text :
    (r : Rule)
    → is_word r.target ≡ true
    → fields (rule_text r)
      ≡ proto_of r ∷ codes "dport" ∷ itoa r.port ∷ codes "dnat" ∷ codes "to" ∷ r.target ∷ []
unfolding rule_text
fields-rule_text r h =
    let at : (s : Str) → fields (b' ' ∷ s) ≡ fields s =
      λ s. fields-space b' ' s (unfold is_space in refl) in
    let space : is_space b' ' ≡ true = unfold is_space in refl in
    fields-space 9 _ (unfold is_space in refl)
    ∙ (fields-space 9 _ (unfold is_space in refl)
        ∙ (fields-word (proto_of r) b' ' _ (proto_of-is_word r) space
            ∙ ap (λ ws. proto_of r ∷ ws)
                (fields-word (codes "dport") b' ' _ (unfold is_word spaceless is_space in refl)
                    space
                  ∙ ap (λ ws. codes "dport" ∷ ws)
                      (fields-word (itoa r.port) b' ' _ (is_word-itoa r.port) space
                        ∙ ap (λ ws. itoa r.port ∷ ws)
                            (fields-word (codes "dnat") b' ' _
                                (unfold is_word spaceless is_space in refl) space
                              ∙ ap (λ ws. codes "dnat" ∷ ws)
                                  (fields-word (codes "to") b' ' _
                                      (unfold is_word spaceless is_space in refl) space
                                    ∙ ap (λ ws. codes "to" ∷ ws) (fields-last r.target h)))))))

rule_of-words :
    (r : Rule)
    → rule_of (proto_of r ∷ codes "dport" ∷ itoa r.port ∷ codes "dnat" ∷ codes "to" ∷ r.target ∷ [])
      ≡ some (rule_key r, r.target)
unfolding rule_of is_dnat rule_key proto_of eq_str
rule_of-words r = elim (Bool-cases r.udp) [ inl e ↦ rw e refl | inr e ↦ rw e refl ]

rule_of-rule_text :
    (r : Rule)
    → is_word r.target ≡ true
    → rule_of (fields (rule_text r)) ≡ some (rule_key r, r.target)
rule_of-rule_text r h = ap rule_of (fields-rule_text r h) ∙ rule_of-words r

-- The targets that a chain gives a key, in order.
line_targets : Str → Line → List Str
line_targets k (rule r) = if eq_str (rule_key r) k then r.target ∷ [] else []
line_targets k (other s) = []

unfoldable pub targets : Str → List Line → List Str
unfolding line_targets
targets k [] = []
targets k (l ∷ ls) = line_targets k l ++ targets k ls

-- What the maps hold of a key after the lines that give it these targets.
unfoldable pub Seen : Str → List Str → Chain → Type 0
Seen k [] ch = (get k ch.rules ≡ none) × (holds k ch.dups ≡ false)
Seen k (v ∷ []) ch = (get k ch.rules ≡ some v) × (holds k ch.dups ≡ false)
Seen k (v ∷ w ∷ ts) ch = ((u : Str) × (get k ch.rules ≡ some u)) × (holds k ch.dups ≡ true)

holds-set :
    (k j : Str) (m : Dict Bool) → holds j (set k true m) ≡ (if eq_str k j then true else holds j m)
unfolding holds
holds-set k j m = ground (arith, get-set k j true m)

add_rule : Str → Str → Chain → Chain
add_rule key target ch = record {
  rules = set key target ch.rules;
  dups = if has key ch.rules then set key true ch.dups else ch.dups;
}

rules_after :
    (k key target : Str) (ch : Chain)
    → get k (add_rule key target ch).rules ≡ (if eq_str key k then some target else get k ch.rules)
unfolding add_rule
rules_after k key target ch = get-set key k target ch.rules

dups_after :
    (k key target : Str) (ch : Chain)
    → holds k (add_rule key target ch).dups
      ≡ (if eq_str key k && has k ch.rules then true else holds k ch.dups)
unfolding add_rule
dups_after k key target ch = ground (arith, holds-set key k ch.dups, eq_str_iff key k)

-- A rule of the key adds its target, a rule of another key nothing.
add_rule-Seen :
    (k key target : Str) (ts : List Str) (ch : Chain)
    → Seen k ts ch
    → Seen k (ts ++ (if eq_str key k then target ∷ [] else [])) (add_rule key target ch)
unfolding Seen
add_rule-Seen k key target [] ch s = elim (Bool-cases (eq_str key k)) [
  | inl e ↦ rw e (
    ground (arith, e, s, rules_after k key target ch),
    ground (arith, e, s, dups_after k key target ch, has-get k ch.rules),
  )
  | inr e ↦ rw e (
    ground (arith, e, s, rules_after k key target ch),
    ground (arith, e, s, dups_after k key target ch),
  )
]
add_rule-Seen k key target (v ∷ []) ch s = elim (Bool-cases (eq_str key k)) [
  | inl e ↦ rw e (
    (target, ground (arith, e, rules_after k key target ch)),
    ground (arith, e, s, dups_after k key target ch, has-get k ch.rules),
  )
  | inr e ↦ rw e (
    ground (arith, e, s, rules_after k key target ch),
    ground (arith, e, s, dups_after k key target ch),
  )
]
add_rule-Seen k key target (v ∷ w ∷ ts) ch s = elim (Bool-cases (eq_str key k)) [
  | inl e ↦ (
    (target, ground (arith, e, rules_after k key target ch)),
    ground (arith, e, s, dups_after k key target ch),
  )
  | inr e ↦
      let ((u, g), h) = s in
      (
        (u, ground (arith, e, g, rules_after k key target ch)),
        ground (arith, e, h, dups_after k key target ch),
      )
]

add_line-Seen :
    (k : Str) (l : Line) (ts : List Str) (ch : Chain)
    → Readable l
    → Seen k ts ch
    → Seen k (ts ++ line_targets k l) (add_line ch (line_text l))
unfolding line_targets add_line line_text Readable add_rule
add_line-Seen k (rule r) ts ch w s =
    rw (add_line, rule_of-rule_text r w) (add_rule-Seen k (rule_key r) r.target ts ch s)
add_line-Seen k (other x) ts ch w s = rw (add_line, w.1, append-nil) s

line_texts : List Line → List Str
line_texts [] = [] ∷ []
line_texts (l ∷ ls) = line_text l ∷ line_texts ls

add_lines-Seen :
    (k : Str) (ls : List Line) (ts : List Str) (ch : Chain)
    → AllReadable ls
    → Seen k ts ch
    → Seen k (ts ++ targets k ls) (add_lines ch (line_texts ls))
unfolding targets add_lines AllReadable line_texts add_line Seen
add_lines-Seen k [] ts ch w s = rw (append-nil, add_line, fields-nil) (unfold rule_of in s)
add_lines-Seen k (l ∷ ls) ts ch w s = rw⁻¹ (append_assoc ts (line_targets k l) (targets k ls)) (
    add_lines-Seen k ls (ts ++ line_targets k l) (add_line ch (line_text l)) w.1
      (add_line-Seen k l ts ch w.0 s))

rule_text_line : (r : Rule) → is_word r.target ≡ true → contains_byte 10 (rule_text r) ≡ false
unfolding rule_text contains_byte is_word proto_of
rule_text_line r h =
    let port =
      spaceless-contains_byte 10 (itoa r.port) (unfold is_space in refl) (spaceless-itoa r.port) in
    let target =
      spaceless-contains_byte 10 r.target (unfold is_space in refl) (ground (arith, h)) in
    let line =
      contains_byte-append 10 (itoa r.port)
        (b' ' ∷ (codes "dnat" ++ b' ' ∷ (codes "to" ++ b' ' ∷ r.target))) in
    elim (Bool-cases r.udp) [
      | inl e ↦ rw (e, line, port, target) refl
      | inr e ↦ rw (e, line, port, target) refl
    ]

line_text_line : (l : Line) → Readable l → contains_byte 10 (line_text l) ≡ false
unfolding line_text Readable
line_text_line (rule r) w = rule_text_line r w
line_text_line (other s) w = w.0

split-chain_text : (ls : List Line) → AllReadable ls → split_byte 10 (chain_text ls) ≡ line_texts ls
unfolding chain_text line_texts AllReadable split_byte
split-chain_text [] w = refl
split-chain_text (l ∷ ls) w =
    split_byte-append 10 (line_text l) (chain_text ls) (line_text_line l w.0)
    ∙ ap (λ ts. line_text l ∷ ts) (split-chain_text ls w.1)

pub parsed-Seen :
    (k : Str) (ls : List Line)
    → AllReadable ls
    → Seen k (targets k ls) (parse_dnat_chain (chain_text ls))
unfolding parse_dnat_chain
parsed-Seen k ls w =
    rw (parse_dnat_chain, split-chain_text ls w)
      (add_lines-Seen k ls [] (record { rules = []; dups = [] }) w
        (unfold Seen get holds in (refl, refl)))
