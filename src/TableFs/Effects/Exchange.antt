-- ===== src/TableFs/Effects/Exchange.antt =====
-- What compare_exchange of a table has done.
use sim_platform.Prelude.{
  String, false, Option, none, some, List, ◌++◌, ◌≡◌, inl, inr, refl, ap, subst, Result, ok,
  if◌then◌else◌,
}
use sim_platform.HostDir.Store.{Segments}
use sim_platform.HostDir.{StoragePort, ModelState, MemoryHostDirPort, compare_exchange, observe}
use sim_platform.HostDir.Laws.{update, view, file_of}
use sim_platform.HostDir.Exchange.{compare_exchange-Atomic}
use sim_platform.TableFs.Leaf.{Kernel, FsError, Leaf, leaf_name}
use sim_platform.TableFs
use sim_platform.TableFs.{
  TableCompareExchange, TableExpected, TableReplacement, delete, value, ext_of, is_directory,
  expected_expr, replacement_expr, encoded, expect_text,
}
use sim_platform.TableFs.Candidates.{leaf_name-eq-ok}
use sim_platform.TableFs.Effects.{Write, exchanging, Exchanges, Did, leaf_place}
use sim_platform.TableFs.Effects.Steps.{Holds, step, swap_step, ended}
use sim_platform.TableFs.Effects.Facts.{replacement_expr-Replaces, encoded-Encodes}

module _ (port : StoragePort) (kernel : Kernel)
    (name-new : (s : String) → kernel.name_of (kernel.new_symbol s) ≡ s)
    (capabilities : List String) (self : MemoryHostDirPort) (state : ModelState) where
  abbrev Holding :
      {A : Type 0} → Write port kernel → Result (FsError port kernel) A × ModelState → Type 0
  Holding call r = Holds port kernel (Did port kernel capabilities self state call) r

  pub exchange-Did :
      (key : kernel.Symbol) (expected : TableExpected kernel.Expr)
      (new : TableReplacement kernel.Value)
      → Holding
          (exchanging key expected new)
          (TableFs.compare_exchange port kernel capabilities key expected new self state)
  unfolding TableFs.compare_exchange
  exchange-Did key expected new =
      let P = Did port kernel capabilities self state (exchanging key expected new) in
      step port kernel P _ _ state (inl refl) λ u readable.
        step port kernel P _ _ state (inl refl) λ u may.
          step port kernel P _ _ state (inl refl) λ existing found.
            step port kernel P _ _ state (inl refl) λ expr replaces.
              step port kernel P _ _ state (inl refl) λ named at_path.
                step port kernel P _ _ state (inl refl) λ wanted wants.
                  step port kernel P _ _ state (inl refl) λ contents holds_text.
                    let path = TableFs.path_of port kernel existing named in
                    swap_step port kernel P self path wanted contents state _
                      (compare_exchange port self path wanted contents false false state)
                      (compare_exchange-Atomic port state self path wanted contents false false)
                      (inl refl)
                      λ o after a.
                        let at = at_leaf existing named at_path in
                        let done : Exchanges port kernel capabilities self state key expected new
                            after =
                          (
                            existing,
                            expr,
                            wanted,
                            contents,
                            o.observed,
                            o.exchanged,
                            readable,
                            may,
                            found,
                            replacement_expr-Replaces port kernel name-new new expr replaces,
                            encoded-Encodes port kernel name-new (ext_of port kernel existing)
                                (expected_expr port kernel expected) wanted wants,
                            encoded-Encodes port kernel name-new (ext_of port kernel existing) expr
                                contents holds_text,
                            subst (λ p. observe port (view state p) ≡ ok o.observed) at a.0,
                            a.1,
                            subst
                                (λ p.
                                  (k : Segments)
                                  → view after k ≡ (
                                      if o.exchanged
                                      then update (view state) p (file_of contents) k
                                      else view state k))
                                at a.2,
                          ) in
                        step port kernel P _ _ after (inr done)
                          λ seen read. ended port kernel P _ after (inr done) done
    where
      at_leaf :
          (existing : Option (Leaf port kernel)) (named : Segments)
          → leaf_name port kernel key (ext_of port kernel existing) ≡ ok named
          → self.prefix ++ TableFs.path_of port kernel existing named
            ≡ leaf_place port kernel capabilities self state key existing
      at_leaf none named h =
          ap (λ p. self.prefix ++ p) (leaf_name-eq-ok port kernel name-new key "siml" h)
      at_leaf (some leaf) named h = refl
