-- ===== src/Lib.antt =====
-- The core of the Dynare preprocessor: the tables of symbols, of numerical constants and of
-- external functions, the expression trees that share their nodes, the derivatives of
-- expressions, their compilation to bytecode, and the stack machine of the MEX file that runs it.
--
-- The parser declares symbols in the symbol table (preprocessor/SymbolTable.cc) and builds
-- expressions by the Add methods of a DataTree (preprocessor/DataTree.cc and DataTree.hh). A tree
-- refers to symbols by their ids and to constants by their ids in the table of
-- preprocessor/NumericalConstants.cc. Once all symbols are known, `freeze` gives those of four
-- types ids of their own.
--
-- ExprNode::compile (preprocessor/ExprNode.cc) writes an expression as instructions of
-- preprocessor/CodeInterpreter.hh, which Interpreter::compute_block_time
-- (mex/sources/bytecode/Interpreter.cc) runs on a stack, against arrays that MATLAB hands over.
-- The names of external functions are symbols of the table of
-- preprocessor/ExternalFunctionsTable.cc.
--
-- Files. Prelude and its children: results with errors, ordered maps, lists, `int`, texts.
-- SymbolTable/State: the fields, the exceptions and the lookups of SymbolTable.hh;
-- SymbolTable/Update: addSymbol, freeze, changeType, markPredetermined, observed variables, sets
-- of ids; SymbolTable/Auxiliary: the auxiliary variables. The proofs are in
-- SymbolTable/WellFormed (the invariant), Declared (addSymbol, changeType), Added (what every
-- method that adds an auxiliary variable shares), Freezing and Frozen (freeze), AuxNames and
-- Reach (the calls in any order, as a step relation). NumericalConstants: the table of constants.
-- DataTree/Nodes: the node classes and the state of a tree; DataTree/Eval: eval and eval_opcode
-- of preprocessor/ExprNode.cc; DataTree/Insert: the constructors of the nodes, and AddUnaryOp,
-- AddBinaryOp, AddTrinaryOp, AddUMinus, AddPossiblyNegativeConstant, AddNonNegativeConstant,
-- AddVariable; DataTree/Build: the other Add methods and the constructor. The proofs are in
-- DataTree/Structure, EvalLaws and Invariant (lists of nodes and the invariant), Constants,
-- Negation, Operations, Values, Arithmetic, Functions and NewTree. DataTree/Queries: the
-- questions isSymbolUsed to minLagForSymbol, and what some of them answer; DataTree/MinLag: what
-- the last one answers. DataTree/External: the nodes of external functions. Derivation/Compose:
-- composeDerivatives of the node classes, and unpackPowerDeriv; Derivation/Recursion:
-- prepareForDerivation, computeDerivative and getDerivative, with the sets of derivation IDs and
-- the cache of derivatives; Derivation/DerivIds: what a tree asks of its subclass;
-- Derivation/StaticIds: what StaticModel.cc answers. Derivation/Tangent and Derivative are the
-- specification: the derivative of a value, by the textbook rules and on numbers. The proofs are
-- in Derivation/Reaches (chains of Add methods), Unary, Binary, Trinary and Unpack (one
-- operation), Null, Prepare and NonNull (the sets), States, Compute and Correct (the recursion).
-- ExternalFunctions: the table of external functions. Bytecode/Instructions: the instructions;
-- Bytecode/Machine: the state of the machine and its memory; Bytecode/Variables, Operators and
-- Stores: the instructions that load, compute and store; Bytecode/Run: the switch and the loop;
-- Bytecode/Compile: the compile methods. The proofs are in Bytecode/Steps (the rounds of the loop
-- as a relation), Arithmetic, Memory, Pushes and Correct (compiled code against eval), Keeps,
-- KeepsOperators and Termination.
--
-- Before any of this the macro processor (preprocessor/macro) expands the text of a model, with
-- values, variables, conditions and loops of its own. Macro/Values: the values and errors of
-- MacroValue.hh; Macro/Operators: their operators; Macro/Driver: the state and the methods of
-- MacroDriver.cc. The proofs are in Macro/Range, Sets and Loops.
--
-- An expr_t is the index of its node, a counter as in ExprNode::idx. A C++ name such as addSymbol
-- is spelled add_symbol. An exception, a failed assertion and a call of exit are values of a
-- result type; an operation returns the new state, and where it throws nothing was changed
-- before. A `map` is an association list in the order of its keys, where the source iterates over
-- it.
--
-- `double` is a parameter (DataTree/Doubles), with the functions of <cmath>, strtod and output at
-- 16 digits. DataTree/Laws names the laws of exact arithmetic that the simplifications rely on;
-- they are hypotheses. DataTree/Trits is arithmetic modulo 3, the numbers of the tests.
--
-- AddUnaryOp calls AddPossiblyNegativeConstant, which calls AddUMinus, which calls AddUnaryOp.
-- The model counts the times round and allows two, which is enough since the second time is at
-- the negation of a constant, which is not folded.
--
-- getDerivative and prepareForDerivation are given a fuel, the depth of their calls: a fuel above
-- the index of a node is enough. Derivation/Laws names what the rules rely on in exact arithmetic
-- and in <cmath>. Left out of the specification are ATANH, for which the source multiplies where
-- the derivative divides, STEADY_STATE and its derivatives, the expectation operator, local
-- variables, external functions and the derivatives of a power, although the rules for them are
-- modelled.
--
-- compile is given a fuel, the depth of its calls: a fuel above the index of a node is enough,
-- since the arguments of a node and the definition of a local variable have smaller indices. The
-- loop of the machine is given a fuel, the number of its rounds: one above the number of
-- instructions is enough, since jumps only go forward, for code that ends with FENDBLOCK, behind
-- which no jump leads. Bytecode/Literals holds what the machine asks of double beyond the trees.
--
-- The loop of new_range is given as many rounds as the range has integers, and one more for its
-- last test. A result of the macro language that int cannot hold, a division by zero and the
-- subscript of a string, which reads behind a character, are an error value for undefined
-- behaviour.
--
-- Symbol ids and counters are unbounded: that a table holds fewer than 2 ^ 31 symbols is not
-- checked by the source. Not modelled: the writers of MATLAB code, the chain rule for recursive
-- blocks, the derivation IDs of the dynamic model, the scanner and grammar of the macro
-- processor, the parser, the block decomposition, and dynare++. Of the bytecode, the calls of
-- external functions (FCALL, which calls MATLAB, and the second derivatives) and the solvers
-- around the machine are left out, as is the message that it prints for an unknown type of
-- variable.
pub mod Prelude
pub mod SymbolTable
pub mod NumericalConstants
pub mod DataTree
pub mod ExternalFunctions
pub mod Bytecode
pub mod Macro
pub mod Derivation
