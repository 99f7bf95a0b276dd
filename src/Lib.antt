-- ===== src/Lib.antt =====
-- The mapping algebra and the sequence analysis of the Sair dialect.
--
-- Sair describes a tensor program by operations over iteration domains. A mapping says how the
-- dimensions of one domain are accessed from another: it holds one expression for each dimension,
-- built from dimensions of the use domain, the placeholders `none` and `?`, and stripes and
-- unstripes, which split a dimension into tiles and put it together again. The sequence analysis
-- orders the compute operations of a program by their data dependencies and by the sequence
-- numbers that are given. Decisions are attributes of the operations: the sequence number, the
-- loops, the storage. The loop nests are verified against the sequence and the mappings.
--
-- Common                 tests, lists, options, finite sets as lists, and signed integers.
-- Mapping/Expr           the expressions of sair_attributes.{h,cc}: `Map`, `Walk`, `SubstituteDims`,
--                        `DependencyMask`, `HasNoneExprs`, `HasUnknownExprs`, `MinDomainSize`. The
--                        context of MLIR and the uniquing of attributes have no counterpart: two
--                        expressions are the same attribute when they are equal. A failing assert
--                        is a well-formedness predicate (Mapping/Expr/Valid).
-- Mapping/Refines        the order in which an expression is below what its placeholders can be
--                        replaced by; it is the specification that `Unify` is compared with.
-- Mapping/Unify          `Unify` of sair_attributes.cc. The null expression is `none` of Option.
--                        The unstripe case of the code swaps receiver and argument; the model
--                        carries the swap as a flag, so its recursion is structural.
-- Mapping/Inverse        `SetInverse` and `FindInInverse`. The array of inverses that the code
--                        mutates is passed along.
-- Mapping/Attr           `MappingAttr`, one function for each method. `MappingAttr::get` is the record
--                        itself; what it asserts is `verify_mapping_exprs`, which is no part of the
--                        results of `Compose` and `Inverse`.
-- Mapping/Named          `NamedMappingAttr`; a name is a number.
-- Mapping/Canonical      `Canonicalize` and `AsAffineExpr`. The loop over the two rules is on fuel;
--                        the number of sub-expressions of the operands is enough, since each rule
--                        lowers it. A failing assert is a result of its own, then `none`.
-- Mapping/Constraints    `UnificationConstraints`. The constraints that the callback mutates are
--                        passed along; an access out of their range is a state of its own.
-- Attributes/Interface   what the code uses of the framework's attributes, as a record of operations
--                        and laws: casts give back what an attribute was made of, a dictionary has
--                        the fields that it was made of. Strings are numbers.
-- Attributes/Loop        `LoopAttr`; Attributes/Buffer `BufferAttr`.
-- Attributes/Decisions   `DecisionsAttr`, and the functions of sair_attributes.cc that update
--                        decisions (Attributes/Decisions/Updates).
-- Sequence/Graph         `ConcreteOpGraph` of sequence.cc; operations are numbers.
-- Sequence/Program       what the analysis reads of a program, and `ComputeOpFrontier`.
-- Sequence/Traversal     `DFSPostorderTraversal`. Fuel bounds the steps of a visit and rounds the
--                        number of visits; the number of nodes bounds both.
-- Sequence/Default       `FindEdgesToCut`, `OpsBefore` and `ComputeDefaultSequence`. More rounds of cutting
--                        than operations are enough, since each round cuts another `fby`
--                        (Sequence/Default/Cutting, Sequence/Default/Ends).
-- Sequence/Analysis      `ProgramPoint` and `SequenceAnalysis`: `Create`, `Insert`, `Erase`, `IsBefore`,
--                        `PrevOp`, `NextOp`, `IsAfter`, `GetSpan`. The number -1 is `none` of Option.
-- Loops/State            `LoopNestState` of loop_nest.cc and the loop of `VerifyLoopNests` over the
--                        operations in their sequence. An operation comes with its loops, with
--                        whether `VerifyLoopRanges` accepts it, and with the open loops that the
--                        constraint analysis asks for, in the order of the code.
-- Loops/Nest             `VerifyLoopNestWellFormed` up to its call of `VerifyMappingShape`, with an
--                        error value for each diagnostic, and `VerifySubDomains`.
-- Loops/Space            `IterationSpace`, `InferIterationSpace` and `TryTranslateMapping`. A failing
--                        assert is kept apart from the null result.
-- Loops/Mapped           `MappedDomain` of mapped_domain.cc and `LoopNest`. A value is a number, and
--                        the operations that are placeholders are a parameter.
-- Loops/Fusion           `LoopFusionClass` and `LoopFusionAnalysis`: `RegisterLoop`, and `Init` up to
--                        the trimming of dependencies (Loops/Fusion/Init). The map of classes is a
--                        list, and which operations come before which is a parameter. The fuel of
--                        `Init` counts the levels of loops; one more than the number of loops of each
--                        operation is enough.
-- Examples               runs at concrete inputs.
--
-- Numbers are positions and sizes of lists that are in memory, and strip-mining factors, which the
-- modelled code compares and divides by: they are natural numbers without a bound. The sequence
-- numbers that a program gives to its operations are signed (`int64_t`, in Common/Int): the code
-- only compares them, so no width is written out. The unroll factor that the fusion analysis
-- compares is an `unsigned`: it is taken modulo 2 ^ 32. Diagnostics are not modelled, a failure is.
--
-- Not modelled: the shapes of domains, the constraint analysis of loop nests, the trimming in the
-- fusion analysis, storage, expansion, the operations and their parsing and printing, the passes, and the
-- registration with MLIR.
pub mod Common
pub mod Mapping
pub mod Sequence
pub mod Loops
pub mod Attributes
mod Examples
